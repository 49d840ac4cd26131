-- ===== src/Tests/JobsTests.antt =====
-- Two workers on a table of two jobs.
use course_project.Base.{ℕ, ◌+◌, ◌≡◌, ◌≤◌, refl, some, none, List, [], ◌∷◌, arith, All}
use course_project.Base.Sort.{sort_by, insert_by}
use course_project.Base.Tables.{sum_by}
use course_project.Base.Text.{Text, codes, text_eq}
use course_project.Db.Rows.{Job}
use course_project.Jobs.{
  Claim, Workers, claim_job, save_processed, count_attempt, count_pending, worker_end, claim,
  commit, fail, attempt, Reach, here, next,
}
use course_project.Jobs.Invariant.{Reach-once}
use course_project.Jobs.Once.{locks_on}
use course_project.Js.{obj, end}

abbrev receipt : Text
receipt = codes "receipt"

abbrev job_of : ℕ → Job
job_of id = record {
  id = id;
  kind = receipt;
  payload = obj end;
  processed = 0;
  attempts = 0;
  worker_id = none;
}

abbrev start : Workers
start = record { jobs = job_of 2 ∷ job_of 1 ∷ []; open_claims = []; failed_claims = []; done = 0 }

abbrev first : Claim
first = record { worker = codes "a"; job = job_of 1 }

abbrev second : Claim
second = record { worker = codes "b"; job = job_of 2 }

-- The first job is locked, so the second worker skips it.
skips : claim_job receipt (first ∷ []) start.jobs ≡ some (job_of 2)
unfolding claim_job text_eq sort_by insert_by
skips = refl

abbrev finish : Workers
finish = record {
  jobs = count_attempt 1 (save_processed second start.jobs);
  open_claims = [];
  failed_claims = [];
  done = 1;
}

finish-Reach : Reach start finish
unfolding claim_job text_eq sort_by insert_by
finish-Reach =
    next
      (next
        (next
          (next (next here (claim (codes "a") receipt (job_of 1) refl))
            (claim (codes "b") receipt (job_of 2) refl))
          (commit [] (first ∷ []) second refl))
        (fail [] [] first refl))
      (attempt [] [] first refl refl)

Reach-once_example :
    All (λ (j : Job). j.processed + locks_on j.id finish.open_claims ≤ 1) finish.jobs
    × (sum_by (λ (j : Job). j.processed) finish.jobs ≡ finish.done)
Reach-once_example =
    Reach-once start.jobs finish ((ground arith, tt), (tt, tt)) (refl, (refl, tt)) finish-Reach

still_pending : worker_end receipt finish.jobs 1 ≡ none
unfolding worker_end count_pending text_eq count_attempt save_processed
still_pending = refl

abbrev drained : List Job
drained = record (job_of 1) { attempts = 5 } ∷ record (job_of 2) { processed = 1 } ∷ []

drained_end : worker_end receipt drained 1 ≡ some 1
unfolding worker_end count_pending text_eq
drained_end = refl
