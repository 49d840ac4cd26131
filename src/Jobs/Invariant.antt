-- ===== src/Jobs/Invariant.antt =====
-- job-worker.ts: the invariant of the workers and their table.
use course_project.Base.{
  ℕ, suc, ◌+◌, ◌≡◌, ◌≢◌, ◌≤◌, refl, ap, ◌∙◌, ◌==◌, true, some, List, [], ◌∷◌, ◌++◌, any, All,
  All-imp, arith,
}
use course_project.Base.Tables.{Distinct, Distinct-update, sum_by}
use course_project.Base.Text.{Text}
use course_project.Db.Rows.{Job}
use course_project.Jobs.Once.{
  locks_on, IsOnce, IsRead, claim-IsOnce, release-IsOnce, claimed-Unprocessed, commit-IsOnce,
  commit-sum, release-IsRead, update-IsRead, count_attempt-IsOnce, count_attempt-sum, locks_on-new,
  locks_on-zero,
}
use course_project.Jobs.Rows.{claim_job-IsRow, IsRow-any, IsRow-only}
use course_project.Jobs.{
  Claim, Workers, claim_job, save_processed, count_attempt, Step, claim, commit, fail, attempt, die,
  enqueue, Reach, here, next,
}

-- The ids are a key; every job is processed or claimed at most once; every claim has read an
-- unprocessed job of the table; and the workers' count is the number of jobs processed.
pub record IsValid (s : Workers) : Type 0 where
  pub distinct : Distinct (λ (j : Job). j.id) s.jobs
  pub once : IsOnce s.open_claims s.jobs
  pub read : IsRead s.jobs s.open_claims
  pub tally : sum_by (λ (j : Job). j.processed) s.jobs ≡ s.done

claim-IsValid :
    (s : Workers) (worker kind : Text) (j : Job)
    → claim_job kind s.open_claims s.jobs ≡ some j
    → IsValid s
    → IsValid (record s { open_claims = (record { worker = worker; job = j }) ∷ s.open_claims })
claim-IsValid s worker kind j h v =
    let (row, free) = claim_job-IsRow kind s.open_claims s.jobs j h in
    let unread : j.processed ≡ 0 = ground (arith, free) in
    let unlocked = locks_on-zero j.id s.open_claims (ground (arith, free)) in
    let same =
      All-imp (λ (k : Job). k.id ≡ j.id → k ≡ j) (λ (k : Job). k.id ≡ j.id → k.processed ≡ 0) s.jobs
        (λ k only e. ap (λ (r : Job). r.processed) (only e) ∙ unread)
        (IsRow-only j s.jobs v.distinct row) in
    record {
      distinct = v.distinct;
      once =
          claim-IsOnce (record { worker = worker; job = j }) s.open_claims s.jobs unlocked same
            v.once;
      read = ((unread, IsRow-any j s.jobs row), v.read);
      tally = v.tally;
    }

commit-IsValid :
    (s : Workers) (xs ys : List Claim) (c : Claim)
    → s.open_claims ≡ xs ++ c ∷ ys
    → IsValid s
    → IsValid
        (record s { jobs = save_processed c s.jobs; open_claims = xs ++ ys; done = suc s.done })
unfolding save_processed
commit-IsValid s xs ys c split v =
    let ((unread, row), others) = release-IsRead s.jobs xs ys s.open_claims c split v.read in
    let unprocessed = claimed-Unprocessed xs ys s.open_claims c s.jobs split v.once in
    record {
      distinct = Distinct-update (λ (j : Job). j.id) _ _ s.jobs (λ j. refl) v.distinct;
      once = commit-IsOnce xs ys s.open_claims c s.jobs split unread v.once;
      read = update-IsRead _ _ s.jobs (xs ++ ys) (λ j. refl) others;
      tally = commit-sum c s.jobs unread unprocessed v.distinct row ∙ ap suc v.tally;
    }

release-IsValid :
    (s : Workers) (failed xs ys : List Claim) (c : Claim)
    → s.open_claims ≡ xs ++ c ∷ ys
    → IsValid s
    → IsValid (record s { open_claims = xs ++ ys; failed_claims = failed })
release-IsValid s failed xs ys c split v = record {
  distinct = v.distinct;
  once = release-IsOnce xs ys s.open_claims c s.jobs split v.once;
  read = (release-IsRead s.jobs xs ys s.open_claims c split v.read).1;
  tally = v.tally;
}

attempt-IsValid :
    (s : Workers) (id : ℕ) (failed : List Claim)
    → IsValid s
    → IsValid (record s { jobs = count_attempt id s.jobs; failed_claims = failed })
unfolding count_attempt
attempt-IsValid s id failed v = record {
  distinct = Distinct-update (λ (j : Job). j.id) _ _ s.jobs (λ j. refl) v.distinct;
  once = count_attempt-IsOnce id s.open_claims s.jobs v.once;
  read = update-IsRead _ _ s.jobs s.open_claims (λ j. refl) v.read;
  tally = count_attempt-sum id s.jobs ∙ v.tally;
}

enqueue-IsValid :
    (s : Workers) (j : Job)
    → j.processed ≡ 0
    → All (λ (k : Job). k.id ≢ j.id) s.jobs
    → IsValid s
    → IsValid (record s { jobs = j ∷ s.jobs })
unfolding sum_by
enqueue-IsValid s j new absent v = record {
  distinct = (absent, v.distinct);
  once = (omega (arith, new, locks_on-new j.id s.jobs s.open_claims absent v.read), v.once);
  read =
      All-imp
        (λ (c : Claim). (c.job.processed ≡ 0) × (any (λ (k : Job). k.id == c.job.id) s.jobs ≡ true))
        (λ (c : Claim).
          (c.job.processed ≡ 0) × (any (λ (k : Job). k.id == c.job.id) (j ∷ s.jobs) ≡ true))
        s.open_claims (λ c h. (h.0, ground (arith, h.1))) v.read;
  tally = omega (arith, new, v.tally);
}

Step-IsValid : (s t : Workers) → Step s t → IsValid s → IsValid t
Step-IsValid s _ (claim worker kind j h) v = claim-IsValid s worker kind j h v
Step-IsValid s _ (commit xs ys c h) v = commit-IsValid s xs ys c h v
Step-IsValid s _ (fail xs ys c h) v = release-IsValid s (c ∷ s.failed_claims) xs ys c h v
Step-IsValid s _ (attempt xs ys c h free) v = attempt-IsValid s c.job.id (xs ++ ys) v
Step-IsValid s _ (die xs ys c h) v = release-IsValid s s.failed_claims xs ys c h v
Step-IsValid s _ (enqueue j new absent) v = enqueue-IsValid s j new absent v

Reach-IsValid : (s t : Workers) → Reach s t → IsValid s → IsValid t
Reach-IsValid s _ here v = v
Reach-IsValid s u (next {t} r step) v = Step-IsValid t u step (Reach-IsValid s t r v)

start-IsOnce : (jobs : List Job) → All (λ (j : Job). j.processed ≡ 0) jobs → IsOnce [] jobs
unfolding sum_by
start-IsOnce [] h = tt
start-IsOnce (j ∷ jobs) h = (omega (arith, h.0), start-IsOnce jobs h.1)

start-tally :
    (jobs : List Job)
    → All (λ (j : Job). j.processed ≡ 0) jobs
    → sum_by (λ (j : Job). j.processed) jobs ≡ 0
unfolding sum_by
start-tally [] h = refl
start-tally (j ∷ jobs) h = omega (arith, h.0, start-tally jobs h.1)

-- The workers begin on a table of unprocessed jobs with distinct ids. After any turns of any number
-- of workers, with failures and deaths, every job is either unprocessed and held by at most one open
-- claim, or processed once and held by none; and the sum of the workers' `done` is the number of
-- jobs processed.
pub Reach-once :
    (jobs : List Job) (t : Workers)
    → Distinct (λ (j : Job). j.id) jobs
    → All (λ (j : Job). j.processed ≡ 0) jobs
    → Reach (record { jobs = jobs; open_claims = []; failed_claims = []; done = 0 }) t
    → All (λ (j : Job). j.processed + locks_on j.id t.open_claims ≤ 1) t.jobs
      × (sum_by (λ (j : Job). j.processed) t.jobs ≡ t.done)
Reach-once jobs t distinct fresh r =
    let v = Reach-IsValid _ t r (record {
      distinct = distinct;
      once = start-IsOnce jobs fresh;
      read = tt;
      tally = start-tally jobs fresh;
    }) in
    (v.once, v.tally)
