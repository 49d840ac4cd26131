-- ===== src/Demo/Dlq.antt =====
-- demo-dlq.ts: a message that is no event goes to the queue of dead letters.
use course_project.Base.{
  ℕ, ◌==◌, Bool, true, false, ◌&&◌, Option, List, [], ◌∷◌, any, filter, length, Result, ok, err,
  if◌then◌else◌,
}
use course_project.Base.Text.{Text, codes, text_eq}
use course_project.Broker.Consumer.{
  Verdict, requeue, silence, Consumer, failed, run_bounded_consumer,
}
use course_project.Broker.Effects.{demo_prefix, delete_demo_rows}
use course_project.Broker.Topology.{death_reason}
use course_project.Db.Rows.{Db}
use course_project.Demo.Publish.{count_like, dead_letters}
use course_project.Js.{Json, Host}

-- A poll that waits in vain, or a consumer that throws
pub data DlqError : Type 0 where
  timed_out consumer_failed : DlqError

pub record DlqRows : Type 0 where
  pub rejected : ℕ
  pub work : ℕ
  pub dlq : ℕ
  pub dlq_reason : Text
  pub effect : ℕ

abbrev pub death_reasons : List Text
death_reasons = codes "rejected" ∷ codes "expired" ∷ codes "maxlen" ∷ codes "delivery_limit" ∷ []

unfoldable pub dlq_ok : DlqRows → Bool
dlq_ok rows =
    rows.rejected == 1
    && rows.work == 0
    && rows.dlq == 1
    && any (λ r. text_eq r rows.dlq_reason) death_reasons
    && rows.effect == 0

-- What is still in the work queue: what was put back, or told nothing.
abbrev pub is_left : Verdict → Bool
is_left requeue = true
is_left silence = true
is_left _ = false

abbrev pub left_over : Consumer → ℕ
left_over c = length (filter is_left c.verdicts)

abbrev pub dlq_rows : Option Json → Consumer → DlqRows
dlq_rows headers c = record {
  rejected = c.stats.rejected;
  work = left_over c;
  dlq = dead_letters c;
  dlq_reason = death_reason headers;
  effect = count_like demo_prefix c.db;
}

-- `headers` are those that the broker gives the dead letter.
abbrev pub after_polls : Option Json → Consumer → Result DlqError DlqRows
after_polls headers c =
    if left_over c == 0 && dead_letters c == 1 then ok (dlq_rows headers c) else err timed_out

abbrev pub on_poison_consumed : Option Json → Consumer → Result DlqError DlqRows
on_poison_consumed headers c = elim c.phase [
  | failed ↦ err consumer_failed
  | _ ↦ after_polls headers c
]

-- `main`
unfoldable pub demo_dlq : Host → Option Json → Db → Result DlqError DlqRows
unfolding count_like delete_demo_rows death_reason
demo_dlq host headers db = on_poison_consumed headers (
    run_bounded_consumer host 1
      ((record { body = host.body_of_text (codes "not-a-contract"); fails = false }) ∷ [])
      (delete_demo_rows db))
