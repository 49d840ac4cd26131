-- ===== src/Demo/Crash.antt =====
-- demo-crash-write.ts and demo-crash-relay.ts: the process dies before the commit of the order, and
-- between the publish of its event and the mark of its row.
use course_project.Base.{
  ℕ, ◌+◌, leb, ◌==◌, Bool, true, false, ◌&&◌, Option, none, some, [], ◌∷◌, ◌++◌, List, map, Result,
  ok, err,
}
use course_project.Base.Text.{Text, codes}
use course_project.Broker.Consumer.{Consumer, failed, run_bounded_consumer}
use course_project.Broker.Event.{OrderPlacedEvent}
use course_project.Checkout.Run.{checkout}
use course_project.Checkout.Steps.{CheckoutInput, CheckoutError, Placed, crashed, Clock}
use course_project.Db.Rows.{Db}
use course_project.Demo.Flow.{message_of, relay_options}
use course_project.Demo.{Fixture, NextIds, Measured, measure, prepare_demo}
use course_project.Js.{Json, Host}
use course_project.Outbox.Relay.{RelayError, relay_crashed, RelayOptions, Relay, relay_outbox}

abbrev pub crash_write_key : Text
crash_write_key = codes "demo:crash-write:key"

abbrev pub crash_relay_key : Text
crash_relay_key = codes "demo:crash-relay:key"

-- The call of `checkout` in both scripts
abbrev pub crash_input : Text → Text → Bool → Fixture → CheckoutInput
crash_input key fingerprint crash fixture = record {
  buyer_id = fixture.buyer_id;
  items = (record { product_id = fixture.product_id; quantity = 1 }) ∷ [];
  idempotency_key = some key;
  fingerprint = some fingerprint;
  crash_after_outbox = crash;
}

-- The checkout, the relay or the consumer throws what the script does not expect.
pub data CrashError : Type 0 where
  checkout_failed relay_failed consumer_failed : CrashError

pub record WriteRows : Type 0 where
  pub write_failed : ℕ
  pub orders : ℕ
  pub outbox : ℕ
  pub published : ℕ
  pub deliveries : ℕ
  pub effect : ℕ

-- `if (!(err instanceof CheckoutCrashed)) throw err`, and what is measured then
abbrev pub write_rows : ℕ → Measured → WriteRows
write_rows failures m = record {
  write_failed = failures;
  orders = m.orders;
  outbox = m.outbox;
  published = 0;
  deliveries = m.deliveries;
  effect = m.effect;
}

abbrev pub on_written : Result CheckoutError Placed × Db → Result CrashError WriteRows
on_written (ok _, db) = ok (write_rows 0 (measure crash_write_key db))
on_written (err crashed, db) = ok (write_rows 1 (measure crash_write_key db))
on_written (err _, db) = err checkout_failed

unfoldable pub write_ok : WriteRows → Bool
write_ok rows =
    rows.write_failed == 1
    && rows.orders == 0
    && rows.outbox == 0
    && rows.published == 0
    && rows.deliveries == 0
    && rows.effect == 0

-- `main` of demo-crash-write.ts
unfoldable pub crash_write :
    Host → (Json → Text) → NextIds → Clock → Db → Result CrashError WriteRows
crash_write host as_text next clock db =
    let (fixture, prepared) = prepare_demo as_text crash_write_key next db in
    on_written (
      checkout host (crash_input crash_write_key (codes "demo:crash-write") true fixture) clock
        prepared)

pub record CrashRows : Type 0 where
  pub published : ℕ
  pub deliveries : ℕ
  pub applied : ℕ
  pub effect : ℕ
  pub processed : ℕ

unfoldable pub relay_ok : CrashRows → Bool
relay_ok rows =
    leb 2 rows.published
    && leb 2 rows.deliveries
    && rows.applied == 1
    && rows.effect == 1
    && rows.processed == 1

abbrev pub crash_rows : ℕ → Measured → CrashRows
crash_rows published m = record {
  published = published;
  deliveries = m.deliveries;
  applied = m.effect;
  effect = m.effect;
  processed = m.processed;
}

abbrev pub on_counted : ℕ → Consumer → Result CrashError CrashRows
on_counted published c = elim c.phase [
  | failed ↦ err consumer_failed
  | _ ↦ ok (crash_rows published (measure crash_relay_key c.db))
]

-- `limit: 1`, with the crash
abbrev pub crash_options : ℕ → RelayOptions
crash_options id = record { limit = some 1; crash_after_publish = true; aggregate_id = some id }

-- What the first run adds to `rows.published`; an error that is not the crash is thrown on.
abbrev pub crash_count : Result RelayError ℕ → Option ℕ
crash_count (ok _) = some 0
crash_count (err relay_crashed) = some 1
crash_count (err _) = none

module _ (host : Host) (confirms : OrderPlacedEvent → Bool) where
  -- Both runs have sent their events to the queue, which was empty.
  abbrev pub on_resent :
      ℕ → List OrderPlacedEvent → Db → Result RelayError ℕ × Relay → Result CrashError CrashRows
  on_resent published sent db (err e, relay) = err relay_failed
  on_resent published sent db (ok again, relay) = on_counted (published + again) (
      run_bounded_consumer host 2 (map (message_of host) (sent ++ relay.confirmed))
        (record db { outbox = relay.outbox }))

  abbrev pub after_crash : ℕ → ℕ → Db → Relay → Option ℕ → Result CrashError CrashRows
  after_crash id now db relay none = err relay_failed
  after_crash id now db relay (some published) =
      on_resent published relay.confirmed (record db { outbox = relay.outbox })
        (relay_outbox host confirms (relay_options id) [] now relay.outbox)

  abbrev pub on_crashed : ℕ → ℕ → Db → Result RelayError ℕ × Relay → Result CrashError CrashRows
  on_crashed id now db (r, relay) = after_crash id now db relay (crash_count r)

  -- The runs of the relay read the clock as `t` and `u`.
  abbrev pub on_checkout : ℕ → ℕ → Result CheckoutError Placed × Db → Result CrashError CrashRows
  on_checkout t u (err e, db) = err checkout_failed
  on_checkout t u (ok placed, db) =
      on_crashed placed.order_id u db
        (relay_outbox host confirms (crash_options placed.order_id) [] t db.outbox)

  -- `main` of demo-crash-relay.ts
  unfoldable pub crash_relay :
      (Json → Text) → NextIds → Clock → ℕ → ℕ → Db → Result CrashError CrashRows
  crash_relay as_text next clock t u db =
      let (fixture, prepared) = prepare_demo as_text crash_relay_key next db in
      on_checkout t u (
        checkout host (crash_input crash_relay_key (codes "demo:crash-relay") false fixture) clock
          prepared)
