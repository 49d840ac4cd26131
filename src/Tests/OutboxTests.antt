-- ===== src/Tests/OutboxTests.antt =====
-- Runs of the relay.
use course_project.Base.{
  ℕ, ◌≡◌, refl, ◌⊎◌, true, false, none, List, [], ◌∷◌, Result, ok, length, All,
}
use course_project.Db.Rows.{OutboxRow}
use course_project.Base.Text.{codes, text_eq}
use course_project.Js.{to_number}
use course_project.Broker.Event.{event_json, parse_order_placed, parse_data}
use course_project.Outbox.Relay.{
  RelayOptions, Relay, RelayError, relay_outbox, select_rows, insert_row, order_rows,
  count_attempts, mark_published, publish_rows, event_from_payload,
}
use course_project.Outbox.Selection.{is_published, has_row}
use course_project.Outbox.Published.{
  IsSendable, Confirmed, relay_outbox-Confirmed, relay_outbox-total,
}
use course_project.Tests.Fixtures.{host, event}

abbrev row : OutboxRow
row = record {
  id = 1;
  aggregate_type = codes "order";
  type = codes "order.placed";
  aggregate_id = 12;
  payload = event_json event;
  created_at = 50;
  published_at = none;
  attempts = 0;
}

abbrev two_rows : List OutboxRow
two_rows = row ∷ (record row { id = 2; created_at = 40 }) ∷ []

abbrev options : RelayOptions
options = record { limit = none; crash_after_publish = false; aggregate_id = none }

ran : Result RelayError ℕ × Relay
unfolding relay_outbox select_rows order_rows insert_row count_attempts mark_published publish_rows
    event_from_payload parse_order_placed parse_data to_number event_json text_eq
ran = relay_outbox host (λ e. true) options [] 100 two_rows

two_published : ran.0 ≡ ok 2
unfolding ran
two_published = refl

rows-IsSendable : All (IsSendable host (λ e. true)) (select_rows options [] two_rows)
unfolding select_rows order_rows insert_row event_from_payload parse_order_placed parse_data
    to_number event_json text_eq
rows-IsSendable = ((event, refl, refl), ((event, refl, refl), tt))

relay_outbox-total_example :
    ((relay_outbox host (λ e. true) options [] 100 two_rows).0
      ≡ ok (length (select_rows options [] two_rows)))
    × ((id : ℕ)
        → has_row id (select_rows options [] two_rows) ≡ true
        → is_published id (relay_outbox host (λ e. true) options [] 100 two_rows).1.outbox ≡ true)
relay_outbox-total_example =
    relay_outbox-total host (λ e. true) options [] 100 two_rows refl rows-IsSendable

row_1_published :
    is_published 1 (relay_outbox host (λ e. true) options [] 100 two_rows).1.outbox ≡ true
unfolding select_rows order_rows insert_row
row_1_published =
    (relay_outbox-total host (λ e. true) options [] 100 two_rows refl rows-IsSendable).1 1 refl

relay_outbox-Confirmed_example :
    (is_published 1 two_rows ≡ true)
    ⊎ Confirmed host (λ e. true) 1 (select_rows options [] two_rows)
relay_outbox-Confirmed_example =
    relay_outbox-Confirmed host (λ e. true) options [] 100 1 two_rows row_1_published
