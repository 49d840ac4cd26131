-- ===== src/Base/Tables.antt =====
-- Tables with a primary key, and sums over their rows.
use Prim.Native.Nat.{ℕ, ◌+◌}
use mathlib.Core.Path.{◌≡◌, refl, sym, ◌∙◌}
use mathlib.Core.Logic.{◌≢◌}
use mathlib.Core.Bool.{Bool, true}
use mathlib.Core.Option.{some}
use mathlib.Core.List.{List, [], ◌∷◌, ◌++◌}
use native.Mathlib.Omega.{arith}
use course_project.Base.Tests.{Bool-cases}
use course_project.Base.Lists.{All, All-append, find, any, update}
use mathlib.Core.Logic.{inl, inr}

module _ {ℓ} {A : Type ℓ} where
  -- `SELECT sum(m) FROM xs`
  unfoldable pub sum_by : (A → ℕ) → List A → ℕ
  sum_by m [] = 0
  sum_by m (x ∷ xs) = m x + sum_by m xs

  pub sum_by-append : (m : A → ℕ) (xs ys : List A) → sum_by m (xs ++ ys) ≡ sum_by m xs + sum_by m ys
  unfolding sum_by
  sum_by-append m [] ys = omega arith
  sum_by-append m (x ∷ xs) ys = omega (arith, sum_by-append m xs ys)

  pub sum_by-snoc : (m : A → ℕ) (xs : List A) (x : A) → sum_by m (xs ++ x ∷ []) ≡ sum_by m xs + m x
  unfolding sum_by
  sum_by-snoc m xs x = omega (arith, sum_by-append m xs (x ∷ []))

  -- No two rows have the same key.
  abbrev pub Distinct {κ} : {K : Type κ} → (A → K) → List A → Type (ℓ ⊔ κ)
  Distinct key [] = Unit
  Distinct key (x ∷ xs) = All (λ y. key y ≢ key x) xs × Distinct key xs

module _ {ℓ κ} {A : Type ℓ} {K : Type κ} (key : A → K) where
  pub All-update :
      (p : A → Bool) (f : A → A) (k : K) (xs : List A)
      → ((x : A) → key (f x) ≡ key x)
      → All (λ y. key y ≢ k) xs
      → All (λ y. key y ≢ k) (update p f xs)
  All-update p f k [] same h = tt
  All-update p f k (x ∷ xs) same h = elim (Bool-cases (p x)) [
    | inl e ↦ rw e ((λ q. h.0 (sym (same x) ∙ q)), All-update p f k xs same h.1)
    | inr e ↦ rw e (h.0, All-update p f k xs same h.1)
  ]

  pub Distinct-update :
      (p : A → Bool) (f : A → A) (xs : List A)
      → ((x : A) → key (f x) ≡ key x)
      → Distinct key xs
      → Distinct key (update p f xs)
  Distinct-update p f [] same d = tt
  Distinct-update p f (x ∷ xs) same d = elim (Bool-cases (p x)) [
    | inl e ↦ rw (e, same x) (All-update p f (key x) xs same d.0, Distinct-update p f xs same d.1)
    | inr e ↦ rw e (All-update p f (key x) xs same d.0, Distinct-update p f xs same d.1)
  ]

  -- An update whose test wants a key that no row has changes nothing.
  pub update_absent :
      (p : A → Bool) (f : A → A) (k : K) (xs : List A)
      → ((x : A) → p x ≡ true → key x ≡ k)
      → All (λ y. key y ≢ k) xs
      → update p f xs ≡ xs
  update_absent p f k [] only h = refl
  update_absent p f k (x ∷ xs) only h = elim (Bool-cases (p x)) [
    | inl e ↦ absurd (h.0 (only x e))
    | inr e ↦ rw (e, update_absent p f k xs only h.1)
  ]

  -- Under a primary key, an update that hits takes `d` off the sum once.
  pub sum_by-update :
      (p : A → Bool) (f : A → A) (m : A → ℕ) (d : ℕ) (k : K) (xs : List A)
      → ((x : A) → p x ≡ true → key x ≡ k)
      → ((x : A) → p x ≡ true → m (f x) + d ≡ m x)
      → Distinct key xs
      → any p xs ≡ true
      → sum_by m (update p f xs) + d ≡ sum_by m xs
  unfolding sum_by
  sum_by-update p f m d k [] only takes ds hit = cc
  sum_by-update p f m d k (x ∷ xs) only takes ds hit = elim (Bool-cases (p x)) [
    | inl e ↦ rw (e, update_absent p f k xs only (rw (← only x e) ds.0)) (omega (arith, takes x e))
    | inr e ↦ rw e (omega (arith, sum_by-update p f m d k xs only takes ds.1 (ground (arith, e))))
  ]

pub find-any {ℓ} :
    {A : Type ℓ} (x : A) (p : A → Bool) (xs : List A) → find p xs ≡ some x → any p xs ≡ true
find-any x p [] h = cc
find-any x p (y ∷ xs) h = ground (arith, find-any x p xs)

pub Distinct-snoc {ℓ κ} :
    {A : Type ℓ} {K : Type κ} (key : A → K) (x : A) (xs : List A)
    → All (λ y. key y ≢ key x) xs
    → Distinct key xs
    → Distinct key (xs ++ x ∷ [])
Distinct-snoc key x [] new d = (tt, tt)
Distinct-snoc key x (y ∷ xs) (apart, new) (d, ds) =
    (All-append _ xs (x ∷ []) d (λ e. apart (sym e), tt), Distinct-snoc key x xs new ds)
