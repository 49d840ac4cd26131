-- ===== src/Tests/QueueTests.antt =====
-- The scripts that publish straight to the queue, on the shop of the other tests.
use course_project.Base.{◌≡◌, refl, true, false, some, ok}
use course_project.Base.Text.{codes, text_eq, decimal}
use course_project.Broker.Consumer.{run_bounded_consumer, attach, handle}
use course_project.Broker.Effects.{
  apply_order_placed, apply_tx, record_delivery, mark_processed, insert_effect, is_like,
  delete_demo_rows,
}
use course_project.Broker.Event.{event_json, parse_order_placed, parse_data}
use course_project.Broker.Topology.{death_reason}
use course_project.Db.Tx.{transaction}
use course_project.Demo.Dlq.{DlqRows, demo_dlq, dlq_ok}
use course_project.Demo.Publish.{PublishRows, publish_event, publish_ok, count_like, demo_publish}
use course_project.Js.{Json, str, obj, field, end, to_number}
use course_project.Tests.Fixtures.{host, shop}

abbrev five_effects : PublishRows
five_effects = record {
  published = 5;
  delivered = 5;
  effect = 5;
  acked = 5;
  dlq = 0;
  prefetch_count = 50;
}

first_publish : (demo_publish host shop).0 ≡ ok five_effects
unfolding demo_publish run_bounded_consumer attach handle apply_order_placed apply_tx
    record_delivery mark_processed insert_effect is_like delete_demo_rows parse_order_placed
    parse_data to_number transaction publish_event count_like decimal event_json text_eq
first_publish = refl

first_publish_ok : publish_ok five_effects ≡ true
unfolding publish_ok
first_publish_ok = refl

-- On the tables that the first run leaves, no event has an effect.
second_publish :
    (demo_publish host (demo_publish host shop).1).0 ≡ ok (record five_effects { effect = 0 })
unfolding demo_publish run_bounded_consumer attach handle apply_order_placed apply_tx
    record_delivery mark_processed insert_effect is_like delete_demo_rows parse_order_placed
    parse_data to_number transaction publish_event count_like decimal event_json text_eq
second_publish = refl

second_publish_fails : publish_ok (record five_effects { effect = 0 }) ≡ false
unfolding publish_ok
second_publish_fails = refl

abbrev dead_headers : Json
dead_headers = obj (field (codes "x-first-death-reason") (str (codes "rejected")) end)

abbrev one_dead : DlqRows
one_dead = record { rejected = 1; work = 0; dlq = 1; dlq_reason = codes "rejected"; effect = 0 }

poison_is_dead : demo_dlq host (some dead_headers) shop ≡ ok one_dead
unfolding demo_dlq run_bounded_consumer attach handle is_like delete_demo_rows parse_order_placed
    count_like death_reason text_eq
poison_is_dead = refl

poison_is_dead_ok : dlq_ok one_dead ≡ true
unfolding dlq_ok text_eq
poison_is_dead_ok = refl
