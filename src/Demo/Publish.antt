-- ===== src/Demo/Publish.antt =====
-- demo-publish.ts: five events in one batch, and a consumer that stops after them.
use course_project.Base.{
  ℕ, leb, ◌==◌, Bool, true, false, ◌&&◌, List, [], ◌∷◌, ◌++◌, map, filter, length, Result, ok, err,
}
use course_project.Base.Text.{Text, codes, decimal}
use course_project.Broker.Consumer.{Verdict, reject, Consumer, failed, run_bounded_consumer}
use course_project.Broker.Effects.{is_like, delete_demo_rows}
use course_project.Broker.Event.{OrderPlacedEvent}
use course_project.Db.Rows.{Db, OrderPlacedEffect}
use course_project.Demo.Flow.{message_of}
use course_project.Js.{Host}

abbrev pub prefetch : ℕ
prefetch = 50

unfoldable pub publish_event : ℕ → OrderPlacedEvent
publish_event n = record {
  event_id = codes "demo:publish:" ++ decimal n;
  occurred_at = codes "2026-10-22T00:00:00.000Z";
  payload = record { order_id = n; buyer_id = 1; total_cents = 100; status = codes "paid" };
}

abbrev pub publish_events : List OrderPlacedEvent
unfolding publish_event
publish_events = map publish_event (1 ∷ 2 ∷ 3 ∷ 4 ∷ 5 ∷ [])

-- The consumer throws.
pub data PublishError : Type 0 where
  consumer_failed : PublishError

pub record PublishRows : Type 0 where
  pub published : ℕ
  pub delivered : ℕ
  pub effect : ℕ
  pub acked : ℕ
  pub dlq : ℕ
  pub prefetch_count : ℕ

-- `countEvents` for `demo:publish:%`
unfoldable pub count_like : Text → Db → ℕ
unfolding is_like
count_like prefix db =
    length (filter (λ (e : OrderPlacedEffect). is_like prefix e.event_id) db.order_placed_effects)

-- The queue of dead letters was empty, and gets the messages that are rejected.
abbrev pub is_reject : Verdict → Bool
is_reject reject = true
is_reject _ = false

abbrev pub dead_letters : Consumer → ℕ
dead_letters c = length (filter is_reject c.verdicts)

abbrev pub publish_rows_of : ℕ → Consumer → PublishRows
publish_rows_of published c = record {
  published = published;
  delivered = c.stats.delivered;
  effect = count_like (codes "demo:publish:") c.db;
  acked = c.stats.acked;
  dlq = dead_letters c;
  prefetch_count = prefetch;
}

unfoldable pub publish_ok : PublishRows → Bool
publish_ok rows =
    rows.published == 5
    && rows.delivered == 5
    && rows.effect == 5
    && rows.acked == 5
    && rows.dlq == 0
    && leb 1 rows.prefetch_count
    && leb rows.prefetch_count 2000

abbrev pub on_batch_consumed : ℕ → Consumer → Result PublishError PublishRows
on_batch_consumed published c = elim c.phase [
  | failed ↦ err consumer_failed
  | _ ↦ ok (publish_rows_of published c)
]

-- `main`, where the broker confirms the batch; the database is the one that the run leaves.
unfoldable pub demo_publish : Host → Db → Result PublishError PublishRows × Db
unfolding count_like delete_demo_rows
demo_publish host db =
    let c =
      run_bounded_consumer host 5 (map (message_of host) publish_events) (delete_demo_rows db) in
    (on_batch_consumed (length publish_events) c, c.db)
