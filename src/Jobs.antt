-- ===== src/Jobs.antt =====
-- job-worker.ts: workers that take jobs from the table, one transaction each.
pub mod Rows
pub mod Once
pub mod Invariant
use course_project.Base.{
  ℕ, suc, ◌+◌, ◌≡◌, ◌≢◌, ltb, ◌==◌, Bool, true, false, not, ◌&&◌, Option, none, some, List, [], ◌∷◌,
  ◌++◌, any, filter, head, update, length, if◌then◌else◌, All,
}
use course_project.Base.Sort.{sort_by}
use course_project.Base.Text.{Text, text_eq}
use course_project.Db.Rows.{Job, job_max_attempts}

-- `job` as a worker has read it, under the lock of its row.
pub record Claim : Type 0 where
  pub worker : Text
  pub job : Job

-- The table, the claims whose transaction is open, the claims whose transaction was rolled back and
-- whose attempt is not counted yet, and the sum of the workers' `done`.
pub record Workers : Type 0 where
  pub jobs : List Job
  pub open_claims : List Claim
  pub failed_claims : List Claim
  pub done : ℕ

abbrev pub is_locked : ℕ → List Claim → Bool
is_locked id = any λ c. c.job.id == id

-- `processed = 0 AND kind = :kind AND attempts < :max`
abbrev pub is_pending : Text → Job → Bool
is_pending kind j = j.processed == 0 && text_eq j.kind kind && ltb j.attempts job_max_attempts

-- `claimJob`: the first free row by id, with `FOR UPDATE SKIP LOCKED`
unfoldable pub claim_job : Text → List Claim → List Job → Option Job
claim_job kind locks jobs = head (
    sort_by (λ (j : Job). j.id)
      (filter (λ (j : Job). is_pending kind j && not (is_locked j.id locks)) jobs))

-- `count({ where: { processed: 0, kind, attempts: LessThan(max) } })`
unfoldable pub count_pending : Text → List Job → ℕ
count_pending kind jobs = length (filter (is_pending kind) jobs)

-- `job.processed += 1; job.workerId = workerId; manager.save(job)`, which writes these two columns
unfoldable pub save_processed : Claim → List Job → List Job
save_processed c =
    update (λ (j : Job). j.id == c.job.id)
      (λ j. record j { processed = suc c.job.processed; worker_id = some c.worker })

-- `UPDATE jobs SET attempts = attempts + 1 WHERE id = $1 AND processed = 0`
unfoldable pub count_attempt : ℕ → List Job → List Job
count_attempt id =
    update (λ (j : Job). j.id == id && j.processed == 0)
      (λ j. record j { attempts = suc j.attempts })

-- The turns of the workers' loops, in any order, and of the rest of the program.
-- The end of a turn that got no job: `return done` once no job of the kind is pending
unfoldable pub worker_end : Text → List Job → ℕ → Option ℕ
worker_end kind jobs done = if count_pending kind jobs == 0 then some done else none

pub data Step (s : Workers) : Workers → Type 0 where
  -- A worker begins a transaction and locks a job.
  claim :
      (worker kind : Text) (j : Job)
      → claim_job kind s.open_claims s.jobs ≡ some j
      → Step s (record s { open_claims = (record { worker = worker; job = j }) ∷ s.open_claims })
  -- The transaction of a claim commits.
  commit :
      (xs ys : List Claim) (c : Claim)
      → s.open_claims ≡ xs ++ c ∷ ys
      → Step s
          (record s { jobs = save_processed c s.jobs; open_claims = xs ++ ys; done = suc s.done })
  -- The processing throws, and the transaction is rolled back.
  fail :
      (xs ys : List Claim) (c : Claim)
      → s.open_claims ≡ xs ++ c ∷ ys
      → Step s (record s { open_claims = xs ++ ys; failed_claims = c ∷ s.failed_claims })
  -- The `catch` counts the attempt, once no other transaction has the row.
  attempt :
      (xs ys : List Claim) (c : Claim)
      → s.failed_claims ≡ xs ++ c ∷ ys
      → is_locked c.job.id s.open_claims ≡ false
      → Step s (record s { jobs = count_attempt c.job.id s.jobs; failed_claims = xs ++ ys })
  -- A worker's process dies in its transaction, and the lock vanishes.
  die :
      (xs ys : List Claim) (c : Claim)
      → s.open_claims ≡ xs ++ c ∷ ys
      → Step s (record s { open_claims = xs ++ ys })
  -- Another part of the program adds a job.
  enqueue :
      (j : Job)
      → j.processed ≡ 0
      → All (λ (k : Job). k.id ≢ j.id) s.jobs
      → Step s (record s { jobs = j ∷ s.jobs })

pub data Reach (s : Workers) : Workers → Type 0 where
  here : Reach s s
  next : {t u : Workers} → Reach s t → Step t u → Reach s u
