-- ===== src/Base/Sort.antt =====
-- `ORDER BY key ASC`: insertion sort by a number.
use Prim.Native.Nat.{ℕ, ◌<◌, ◌+◌}
use mathlib.Core.Path.{◌≡◌, refl}
use mathlib.Core.Logic.{◌≢◌, inl, inr}
use mathlib.Core.List.Perm
use mathlib.Core.List.{List, [], ◌∷◌, map, Perm}
use native.Mathlib.Omega.{arith}
use course_project.Base.Tests.{leb, if◌then◌else◌, Bool-cases}
use course_project.Base.Lists.{All, All-imp}
use course_project.Base.Tables.{Distinct, sum_by}

module _ {ℓ} {A : Type ℓ} (key : A → ℕ) where
  unfoldable pub insert_by : A → List A → List A
  insert_by x [] = x ∷ []
  insert_by x (y ∷ ys) =
      let rest = insert_by x ys in if leb (key x) (key y) then x ∷ y ∷ ys else y ∷ rest

  unfoldable pub sort_by : List A → List A
  unfolding insert_by
  sort_by [] = []
  sort_by (x ∷ xs) = insert_by x (sort_by xs)

  -- Strictly ascending.
  abbrev pub IsSorted : List A → Type ℓ
  IsSorted [] = Unit
  IsSorted (x ∷ xs) = All (λ y. key x < key y) xs × IsSorted xs

  All-insert_by {κ} :
      (P : A → Type κ) (x : A) (xs : List A) → P x → All P xs → All P (insert_by x xs)
  unfolding insert_by
  All-insert_by P x [] p h = (p, tt)
  All-insert_by P x (y ∷ ys) p h = elim (Bool-cases (leb (key x) (key y))) [
    | inl first ↦ rw first (p, h)
    | inr later ↦ rw later (h.0, All-insert_by P x ys p h.1)
  ]

  pub All-sort_by {κ} : (P : A → Type κ) (xs : List A) → All P xs → All P (sort_by xs)
  unfolding sort_by
  All-sort_by P [] h = tt
  All-sort_by P (x ∷ xs) h = All-insert_by P x (sort_by xs) h.0 (All-sort_by P xs h.1)

  sum_by-insert_by :
      (m : A → ℕ) (x : A) (xs : List A) → sum_by m (insert_by x xs) ≡ m x + sum_by m xs
  unfolding insert_by sum_by
  sum_by-insert_by m x [] = refl
  sum_by-insert_by m x (y ∷ ys) = elim (Bool-cases (leb (key x) (key y))) [
    | inl first ↦ rw first refl
    | inr later ↦ rw later (omega (arith, sum_by-insert_by m x ys))
  ]

  pub sum_by-sort_by : (m : A → ℕ) (xs : List A) → sum_by m (sort_by xs) ≡ sum_by m xs
  unfolding sort_by sum_by
  sum_by-sort_by m [] = refl
  sum_by-sort_by m (x ∷ xs) = omega (arith, sum_by-insert_by m x (sort_by xs), sum_by-sort_by m xs)

  insert_by-IsSorted :
      (x : A) (xs : List A) → All (λ y. key y ≢ key x) xs → IsSorted xs → IsSorted (insert_by x xs)
  unfolding insert_by
  insert_by-IsSorted x [] new h = (tt, tt)
  insert_by-IsSorted x (y ∷ ys) new h = elim (Bool-cases (leb (key x) (key y))) [
    | inl first ↦
        let less : key x < key y = ground (arith, first, new.0) in
        rw first (
          (
            less,
            All-imp (λ z. key y < key z) (λ z. key x < key z) ys (λ z k. omega (arith, less, k))
                h.0,
          ),
          h,
        )
    | inr later ↦ rw later (
      All-insert_by (λ z. key y < key z) x ys (ground (arith, later)) h.0,
      insert_by-IsSorted x ys new.1 h.1,
    )
  ]

  -- Under distinct keys the sorted list ascends strictly.
  pub sort_by-IsSorted : (xs : List A) → Distinct key xs → IsSorted (sort_by xs)
  unfolding sort_by
  sort_by-IsSorted [] d = tt
  sort_by-IsSorted (x ∷ xs) d =
      insert_by-IsSorted x (sort_by xs) (All-sort_by (λ y. key y ≢ key x) xs d.0)
        (sort_by-IsSorted xs d.1)

  insert_by-perm : (x : A) (xs : List A) → Perm (insert_by x xs) (x ∷ xs)
  unfolding insert_by
  insert_by-perm x [] = Perm.rfl
  insert_by-perm x (y ∷ ys) = elim (Bool-cases (leb (key x) (key y))) [
    | inl first ↦ rw first Perm.rfl
    | inr later ↦ rw later (Perm.trans (Perm.cons y (insert_by-perm x ys)) (Perm.swap x y ys))
  ]

  pub sort_by-perm : (xs : List A) → Perm (sort_by xs) xs
  unfolding sort_by
  sort_by-perm [] = Perm.rfl
  sort_by-perm (x ∷ xs) = Perm.trans (insert_by-perm x (sort_by xs)) (Perm.cons x (sort_by-perm xs))

module _ {ℓ κ} {A : Type ℓ} {B : Type κ} (f : A → B) where
  pub All-map {μ} : (P : B → Type μ) (xs : List A) → All (λ x. P (f x)) xs → All P (map f xs)
  All-map P [] h = tt
  All-map P (x ∷ xs) h = (h.0, All-map P xs h.1)

  -- A map that keeps the key keeps the order.
  pub IsSorted-map :
      (key : A → ℕ) (key' : B → ℕ) (xs : List A)
      → ((x : A) → key' (f x) ≡ key x)
      → IsSorted key xs
      → IsSorted key' (map f xs)
  IsSorted-map key key' [] same h = tt
  IsSorted-map key key' (x ∷ xs) same h = (
    All-map (λ y. key' (f x) < key' y) xs
        (All-imp (λ y. key x < key y) (λ y. key' (f x) < key' (f y)) xs
          (λ y less. omega (arith, same x, same y, less)) h.0),
    IsSorted-map key key' xs same h.1,
  )
