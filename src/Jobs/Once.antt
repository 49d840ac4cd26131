-- ===== src/Jobs/Once.antt =====
-- job-worker.ts: the marks and the locks of one job, from turn to turn.
use course_project.Base.{
  ℕ, suc, ◌+◌, ◌≡◌, ◌≢◌, ◌≤◌, refl, sym, ap, subst, ◌∙◌, ◌==◌, ==_iff, Bool, true, false, ◌&&◌,
  some, List, [], ◌∷◌, ◌++◌, any, update, if◌then◌else◌, All, All-imp, Bool-cases, inl, inr, arith,
}
use course_project.Base.Tables.{Distinct, sum_by, sum_by-append, update_absent}
use course_project.Db.Rows.{Job}
use course_project.Jobs.{Claim, is_locked, save_processed, count_attempt}

-- How many open claims are on job `id`.
abbrev pub locks_on : ℕ → List Claim → ℕ
locks_on id = sum_by λ c. if c.job.id == id then 1 else 0

pub locks_on-zero :
    (id : ℕ) (claims : List Claim) → is_locked id claims ≡ false → locks_on id claims ≡ 0
unfolding sum_by
locks_on-zero id [] h = refl
locks_on-zero id (c ∷ claims) h = ground (arith, locks_on-zero id claims)

locks_on-split :
    (id : ℕ) (xs ys claims : List Claim) (c : Claim)
    → claims ≡ xs ++ c ∷ ys
    → locks_on id claims ≡ locks_on id (xs ++ ys) + (if c.job.id == id then 1 else 0)
unfolding sum_by
locks_on-split id xs ys claims c h = ground (
  arith,
  ap (locks_on id) h,
  sum_by-append (λ (d : Claim). if d.job.id == id then 1 else 0) xs (c ∷ ys),
  sum_by-append (λ (d : Claim). if d.job.id == id then 1 else 0) xs ys,
)

any-absent :
    (id : ℕ) (jobs : List Job)
    → All (λ (k : Job). k.id ≢ id) jobs
    → any (λ (j : Job). j.id == id) jobs ≡ false
any-absent id [] h = refl
any-absent id (k ∷ jobs) h = ground (arith, h.0, any-absent id jobs h.1)

All-split {κ} :
    (P : Claim → Type κ) (xs ys : List Claim) (c : Claim)
    → All P (xs ++ c ∷ ys)
    → P c × All P (xs ++ ys)
All-split P [] ys c h = h
All-split P (x ∷ xs) ys c h = let (mine, others) = All-split P xs ys c h.1 in (mine, (h.0, others))

locks_on-freed :
    (xs ys claims : List Claim) (c : Claim) (id : ℕ)
    → claims ≡ xs ++ c ∷ ys
    → id ≡ c.job.id
    → locks_on id claims ≡ suc (locks_on id (xs ++ ys))
locks_on-freed xs ys claims c id split e = ground (arith, e, locks_on-split id xs ys claims c split)

-- In a list of rows, every row with id `i` is not processed.
abbrev pub Unprocessed : ℕ → List Job → Type 0
Unprocessed i = All λ (k : Job). k.id ≡ i → k.processed ≡ 0

-- Every job is processed or claimed at most once.
abbrev pub IsOnce : List Claim → List Job → Type 0
IsOnce claims = All λ (k : Job). k.processed + locks_on k.id claims ≤ 1

-- A free row that is claimed gets its first lock, and the others keep theirs.
pub claim-IsOnce :
    (c : Claim) (claims : List Claim) (jobs : List Job)
    → locks_on c.job.id claims ≡ 0
    → Unprocessed c.job.id jobs
    → IsOnce claims jobs
    → IsOnce (c ∷ claims) jobs
unfolding sum_by
claim-IsOnce c claims [] free unread once = tt
claim-IsOnce c claims (k ∷ jobs) free unread once = (
  elim (Bool-cases (c.job.id == k.id)) [
    | inl same ↦
        let e : c.job.id ≡ k.id = (==_iff c.job.id k.id).0 same in
        ground (arith, same, unread.0 (sym e), free, ap (λ i. locks_on i claims) e)
    | inr other ↦ ground (arith, other, once.0)
  ],
  claim-IsOnce c claims jobs free unread.1 once.1,
)

-- A claim that ends frees its row.
pub release-IsOnce :
    (xs ys claims : List Claim) (c : Claim) (jobs : List Job)
    → claims ≡ xs ++ c ∷ ys
    → IsOnce claims jobs
    → IsOnce (xs ++ ys) jobs
release-IsOnce xs ys claims c jobs split once =
    All-imp (λ (k : Job). k.processed + locks_on k.id claims ≤ 1)
      (λ (k : Job). k.processed + locks_on k.id (xs ++ ys) ≤ 1) jobs
      (λ k h. omega (arith, h, locks_on-split k.id xs ys claims c split)) once

-- The row of an open claim is not processed.
pub claimed-Unprocessed :
    (xs ys claims : List Claim) (c : Claim) (jobs : List Job)
    → claims ≡ xs ++ c ∷ ys
    → IsOnce claims jobs
    → Unprocessed c.job.id jobs
claimed-Unprocessed xs ys claims c jobs split once =
    All-imp (λ (k : Job). k.processed + locks_on k.id claims ≤ 1)
      (λ (k : Job). k.id ≡ c.job.id → k.processed ≡ 0) jobs
      (λ k h e. ground (arith, h, e, locks_on-split k.id xs ys claims c split)) once

-- The commit turns the lock into the mark.
pub commit-IsOnce :
    (xs ys claims : List Claim) (c : Claim) (jobs : List Job)
    → claims ≡ xs ++ c ∷ ys
    → c.job.processed ≡ 0
    → IsOnce claims jobs
    → IsOnce (xs ++ ys) (save_processed c jobs)
unfolding save_processed
commit-IsOnce xs ys claims c [] split zero_read once = tt
commit-IsOnce xs ys claims c (k ∷ jobs) split zero_read once = (
  elim (Bool-cases (k.id == c.job.id)) [
    | inl same ↦
        let freed = locks_on-freed xs ys claims c k.id split ((==_iff k.id c.job.id).0 same) in
        rw same (omega (arith, zero_read, once.0, freed))
    | inr other ↦ rw other (omega (arith, once.0, locks_on-split k.id xs ys claims c split))
  ],
  commit-IsOnce xs ys claims c jobs split zero_read once.1,
)

-- Under the primary key, the commit of a claim processes one row.
pub commit-sum :
    (c : Claim) (jobs : List Job)
    → c.job.processed ≡ 0
    → Unprocessed c.job.id jobs
    → Distinct (λ (k : Job). k.id) jobs
    → any (λ (k : Job). k.id == c.job.id) jobs ≡ true
    → sum_by (λ (k : Job). k.processed) (save_processed c jobs)
      ≡ suc (sum_by (λ (k : Job). k.processed) jobs)
unfolding sum_by save_processed
commit-sum c [] zero_read unread d hit = cc
commit-sum c (k ∷ jobs) zero_read unread d hit = elim (Bool-cases (k.id == c.job.id)) [
  | inl same ↦
      let e : k.id ≡ c.job.id = (==_iff k.id c.job.id).0 same in
      let gone =
        update_absent (λ (r : Job). r.id) (λ (j : Job). j.id == c.job.id)
          (λ (j : Job). record j { processed = suc c.job.processed; worker_id = some c.worker })
          c.job.id jobs (λ r. (==_iff r.id c.job.id).0) (rw (← e) d.0) in
      rw (same, gone) (omega (arith, unread.0 e, zero_read))
  | inr other ↦
      ground (arith, other, commit-sum c jobs zero_read unread.1 d.1 (ground (arith, hit, other)))
]

-- Each claim is on a row of the table, and has read that it is not processed.
abbrev pub IsRead : List Job → List Claim → Type 0
IsRead jobs =
    All λ (c : Claim). (c.job.processed ≡ 0) × (any (λ (j : Job). j.id == c.job.id) jobs ≡ true)

pub release-IsRead :
    (jobs : List Job) (xs ys claims : List Claim) (c : Claim)
    → claims ≡ xs ++ c ∷ ys
    → IsRead jobs claims
    → ((c.job.processed ≡ 0) × (any (λ (j : Job). j.id == c.job.id) jobs ≡ true))
      × IsRead jobs (xs ++ ys)
release-IsRead jobs xs ys claims c split read = All-split _ xs ys c (subst (IsRead jobs) split read)

-- An update that keeps the ids keeps the rows that the claims are on.
any_id-update :
    (p : Job → Bool) (f : Job → Job) (id : ℕ) (jobs : List Job)
    → ((j : Job) → (f j).id ≡ j.id)
    → any (λ (j : Job). j.id == id) (update p f jobs) ≡ any (λ (j : Job). j.id == id) jobs
any_id-update p f id [] same = refl
any_id-update p f id (j ∷ jobs) same = elim (Bool-cases (p j)) [
  | inl e ↦ rw (e, same j, any_id-update p f id jobs same) refl
  | inr e ↦ rw (e, any_id-update p f id jobs same) refl
]

pub update-IsRead :
    (p : Job → Bool) (f : Job → Job) (jobs : List Job) (claims : List Claim)
    → ((j : Job) → (f j).id ≡ j.id)
    → IsRead jobs claims
    → IsRead (update p f jobs) claims
update-IsRead p f jobs [] same read = tt
update-IsRead p f jobs (c ∷ claims) same read = (
  (read.0.0, any_id-update p f c.job.id jobs same ∙ read.0.1),
  update-IsRead p f jobs claims same read.1,
)

-- A counted attempt processes nothing.
pub count_attempt-IsOnce :
    (id : ℕ) (claims : List Claim) (jobs : List Job)
    → IsOnce claims jobs
    → IsOnce claims (count_attempt id jobs)
unfolding count_attempt
count_attempt-IsOnce id claims [] once = tt
count_attempt-IsOnce id claims (k ∷ jobs) once = (
  elim (Bool-cases (k.id == id && k.processed == 0)) [
    | inl hit ↦ rw hit once.0
    | inr miss ↦ rw miss once.0
  ],
  count_attempt-IsOnce id claims jobs once.1,
)

pub count_attempt-sum :
    (id : ℕ) (jobs : List Job)
    → sum_by (λ (k : Job). k.processed) (count_attempt id jobs)
      ≡ sum_by (λ (k : Job). k.processed) jobs
unfolding sum_by count_attempt
count_attempt-sum id [] = refl
count_attempt-sum id (k ∷ jobs) = elim (Bool-cases (k.id == id && k.processed == 0)) [
  | inl hit ↦ rw (hit, count_attempt-sum id jobs) refl
  | inr miss ↦ rw (miss, count_attempt-sum id jobs) refl
]

-- No claim is on a row that does not exist.
pub locks_on-new :
    (id : ℕ) (jobs : List Job) (claims : List Claim)
    → All (λ (k : Job). k.id ≢ id) jobs
    → IsRead jobs claims
    → locks_on id claims ≡ 0
unfolding sum_by
locks_on-new id jobs [] absent read = refl
locks_on-new id jobs (c ∷ claims) absent read = ground (
  arith,
  locks_on-new id jobs claims absent read.1,
  read.0.1,
  any-absent id jobs absent,
  ==_iff c.job.id id,
)
