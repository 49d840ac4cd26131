-- ===== src/Jobs/Rows.antt =====
-- job-worker.ts: what is known of the row that `claimJob` returns.
use course_project.Base.{
  ℕ, ◌≡◌, ◌≢◌, ◌⊎◌, refl, sym, ap, ◌∙◌, leb, ◌==◌, Bool, true, false, not, ◌&&◌, some, List, [],
  ◌∷◌, any, filter, head, if◌then◌else◌, All, All-imp, Bool-cases, inl, inr, arith,
}
use course_project.Base.Sort.{sort_by, insert_by}
use course_project.Base.Tables.{Distinct}
use course_project.Base.Text.{Text}
use course_project.Db.Rows.{Job}
use course_project.Jobs.{Claim, is_locked, is_pending, claim_job}

-- `j` is a row of the table.
abbrev pub IsRow : Job → List Job → Type 0
IsRow j [] = ⊥
IsRow j (k ∷ jobs) = (j ≡ k) ⊎ IsRow j jobs

IsRow-if :
    (b : Bool) (j k : Job) (jobs : List Job)
    → IsRow j (if b then k ∷ jobs else jobs)
    → (b ≡ true) × (j ≡ k) ⊎ IsRow j jobs
IsRow-if true j k jobs (inl here) = inl (refl, here)
IsRow-if true j k jobs (inr there) = inr there
IsRow-if false j k jobs h = inr h

-- A row that a filter keeps is a row, and passes the test.
IsRow-filter :
    (p : Job → Bool) (j : Job) (jobs : List Job)
    → IsRow j (filter p jobs)
    → IsRow j jobs × (p j ≡ true)
IsRow-filter p j [] h = absurd h
IsRow-filter p j (k ∷ jobs) h = elim (IsRow-if (p k) j k (filter p jobs) h) [
  | inl (kept, here) ↦ (inl here, ap p here ∙ kept)
  | inr there ↦ let (row, passes) = IsRow-filter p j jobs there in (inr row, passes)
]

IsRow-insert_by :
    (j k : Job) (jobs : List Job) → IsRow j (insert_by (λ r. r.id) k jobs) → (j ≡ k) ⊎ IsRow j jobs
unfolding insert_by
IsRow-insert_by j k [] h = h
IsRow-insert_by j k (r ∷ jobs) h = elim (Bool-cases (leb k.id r.id)) [
  | inl first ↦ rw first at h
  | inr later ↦ elim (rw later at h) [
    | inl here ↦ inr (inl here)
    | inr there ↦ elim (IsRow-insert_by j k jobs there) [
      | inl new ↦ inl new
      | inr old ↦ inr (inr old)
    ]
  ]
]

IsRow-sort_by : (j : Job) (jobs : List Job) → IsRow j (sort_by (λ r. r.id) jobs) → IsRow j jobs
unfolding sort_by
IsRow-sort_by j [] h = h
IsRow-sort_by j (k ∷ jobs) h = elim (IsRow-insert_by j k (sort_by (λ r. r.id) jobs) h) [
  | inl here ↦ inl here
  | inr there ↦ inr (IsRow-sort_by j jobs there)
]

IsRow-head : (j : Job) (jobs : List Job) → head jobs ≡ some j → IsRow j jobs
IsRow-head j [] h = absurd (ground (arith, h))
IsRow-head j (k ∷ jobs) h = inl (ground (arith, h))

-- The row is of the table, pending and not locked.
pub claim_job-IsRow :
    (kind : Text) (locks : List Claim) (jobs : List Job) (j : Job)
    → claim_job kind locks jobs ≡ some j
    → IsRow j jobs × ((is_pending kind j && not (is_locked j.id locks)) ≡ true)
unfolding claim_job
claim_job-IsRow kind locks jobs j h = IsRow-filter _ j jobs (IsRow-sort_by j _ (IsRow-head j _ h))

pub IsRow-any :
    (j : Job) (jobs : List Job) → IsRow j jobs → any (λ (k : Job). k.id == j.id) jobs ≡ true
IsRow-any j [] h = absurd h
IsRow-any j (k ∷ jobs) h = elim h [
  | inl here ↦ ground (arith, ap (λ (r : Job). r.id) here)
  | inr there ↦ ground (arith, IsRow-any j jobs there)
]

IsRow-ne :
    (j : Job) (id : ℕ) (jobs : List Job)
    → All (λ (k : Job). k.id ≢ id) jobs
    → IsRow j jobs
    → j.id ≢ id
IsRow-ne j id [] h row = absurd row
IsRow-ne j id (k ∷ jobs) h row = elim row [
  | inl here ↦ λ e. h.0 (sym (ap (λ (r : Job). r.id) here) ∙ e)
  | inr there ↦ IsRow-ne j id jobs h.1 there
]

-- Under the primary key, the row is the only one with its id.
pub IsRow-only :
    (j : Job) (jobs : List Job)
    → Distinct (λ (k : Job). k.id) jobs
    → IsRow j jobs
    → All (λ (k : Job). k.id ≡ j.id → k ≡ j) jobs
IsRow-only j [] d row = tt
IsRow-only j (k ∷ jobs) d row = elim row [
  | inl here ↦ (
    (λ e. sym here),
    All-imp (λ (r : Job). r.id ≢ k.id) (λ (r : Job). r.id ≡ j.id → r ≡ j) jobs
        (λ r other e. absurd (other (e ∙ ap (λ (q : Job). q.id) here))) d.0,
  )
  | inr there ↦
      ((λ e. absurd (IsRow-ne j k.id jobs d.0 there (sym e))), IsRow-only j jobs d.1 there)
]
