-- ===== src/Orders/Log/Numbers.antt =====
-- orders/order-events.service.ts: what the queries find in ids that are numbered without gaps.
use course_project.Base.{
  ℕ, zero, suc, ◌+◌, ◌-◌, ◌≡◌, ◌<◌, refl, ap, ◌∙◌, ltb, leb, not, none, some, List, [], ◌∷◌, ◌++◌,
  filter, if◌then◌else◌, arith,
}
use course_project.Orders.Publish.{max_of, insert_desc, order_desc, nth}

-- The numbers lo, lo + 1, …, n of them, and the same downwards.
abbrev pub run_up : ℕ → ℕ → List ℕ
run_up lo zero = []
run_up lo (suc n) = lo ∷ run_up (suc lo) n

abbrev pub run_down : ℕ → ℕ → List ℕ
run_down lo zero = []
run_down lo (suc n) = (lo + n) ∷ run_down lo n

pub run_up-snoc : (lo n : ℕ) → run_up lo n ++ (lo + n) ∷ [] ≡ run_up lo (suc n)
run_up-snoc lo zero = ground arith
run_up-snoc lo (suc n) = ground (arith, run_up-snoc (suc lo) n)

pub max_of-run_up : (lo n : ℕ) → max_of (run_up lo (suc n)) ≡ lo + n
unfolding max_of
max_of-run_up lo zero = ground arith
max_of-run_up lo (suc n) = ground (arith, max_of-run_up (suc lo) n)

pub insert_desc-run_down : (lo n : ℕ) → insert_desc lo (run_down (suc lo) n) ≡ run_down lo (suc n)
unfolding insert_desc
insert_desc-run_down lo zero = ground arith
insert_desc-run_down lo (suc n) = ground (arith, insert_desc-run_down lo n)

pub order_desc-run_up : (lo n : ℕ) → order_desc (run_up lo n) ≡ run_down lo n
unfolding order_desc
order_desc-run_up lo zero = refl
order_desc-run_up lo (suc n) =
    ap (insert_desc lo) (order_desc-run_up (suc lo) n) ∙ insert_desc-run_down lo n

pub nth-run_down :
    (lo n k : ℕ) → nth k (run_down lo n) ≡ (if ltb k n then some (lo + (n - 1 - k)) else none)
nth-run_down lo zero k = ground arith
nth-run_down lo (suc n) zero = ground arith
nth-run_down lo (suc n) (suc k) = ground (arith, nth-run_down lo n k)

pub filter-run_up :
    (lo n last : ℕ) → last < lo → filter (λ id. not (leb id last)) (run_up lo n) ≡ run_up lo n
filter-run_up lo zero last h = refl
filter-run_up lo (suc n) last h = ground (arith, filter-run_up (suc lo) n last)

pub filter-run_up_first :
    (lo n : ℕ) → filter (λ id. not (leb id lo)) (run_up lo (suc n)) ≡ run_up (suc lo) n
filter-run_up_first lo n = ground (arith, filter-run_up (suc lo) n lo)

pub suc-max_of-run_up : (lo n : ℕ) → (n ≡ 0 → lo ≡ 1) → suc (max_of (run_up lo n)) ≡ lo + n
unfolding max_of
suc-max_of-run_up lo zero first = omega (arith, first refl)
suc-max_of-run_up lo (suc n) first = omega (arith, max_of-run_up lo n)
