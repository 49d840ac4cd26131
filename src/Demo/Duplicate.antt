-- ===== src/Demo/Duplicate.antt =====
-- demo-duplicate.ts: a consumer that dies before the ack, and the redelivery of its message.
pub mod Traces
pub mod Rerun
use course_project.Base.{
  ℕ, ◌-◌, ◌==◌, leb, Bool, true, false, ◌&&◌, none, some, [], ◌∷◌, Result, ok, err,
}
use course_project.Base.Text.{Text, codes}
use course_project.Broker.Consumer.{Consumer, failed, run_bounded_consumer, background_consumer}
use course_project.Broker.Effects.{count_effects, count_deliveries, delete_demo_rows}
use course_project.Broker.Event.{OrderPlacedEvent}
use course_project.Db.Rows.{Db}
use course_project.Demo.Flow.{message_of}
use course_project.Js.{Host}

abbrev pub duplicate_event : OrderPlacedEvent
duplicate_event = record {
  event_id = codes "demo:duplicate:1";
  occurred_at = codes "2026-10-22T00:00:00.000Z";
  payload = record { order_id = 1; buyer_id = 1; total_cents = 100; status = codes "paid" };
}

-- No effect shows up while `poll` waits, or the second consumer throws.
pub data DuplicateError : Type 0 where
  timed_out consumer_failed : DuplicateError

pub record DuplicateRows : Type 0 where
  pub deliveries : ℕ
  pub effect : ℕ
  pub skipped : ℕ

-- There is no effect without a delivery, so the difference does not go below zero.
abbrev pub duplicate_rows : Db → DuplicateRows
duplicate_rows db =
    let deliveries = count_deliveries duplicate_event.event_id db in
    let effect = count_effects duplicate_event.event_id db in
    record { deliveries = deliveries; effect = effect; skipped = deliveries - effect }

unfoldable pub duplicate_ok : DuplicateRows → Bool
duplicate_ok rows = leb 2 rows.deliveries && rows.effect == 1 && leb 1 rows.skipped

abbrev pub on_second_consumer : Consumer → Result DuplicateError DuplicateRows × Db
on_second_consumer c = elim c.phase [
  | failed ↦ (err consumer_failed, c.db)
  | _ ↦ (ok (duplicate_rows c.db), c.db)
]

module _ (host : Host) where
  -- The poll for the effect, and the consumer that gets the message again
  abbrev pub after_poll : Db → Bool → Result DuplicateError DuplicateRows × Db
  after_poll db false = (err timed_out, db)
  after_poll db true =
      on_second_consumer (run_bounded_consumer host 1 (message_of host duplicate_event ∷ []) db)

  -- `main`, with the database that the child process leaves when it is killed
  unfoldable pub demo_duplicate : Db → Result DuplicateError DuplicateRows × Db
  unfolding delete_demo_rows background_consumer
  demo_duplicate db =
      let left =
        background_consumer host true ((message_of host duplicate_event ∷ []) ∷ [])
          (delete_demo_rows db) in
      after_poll left (count_effects duplicate_event.event_id left == 1)
