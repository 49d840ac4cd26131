-- ===== src/Pagination/Pages.antt =====
-- common/pagination/pagination.ts: a client that follows the cursors reads the whole list.
use course_project.Base.Sort.{IsSorted}
use course_project.Base.{
  ℕ, zero, suc, ◌<◌, ◌≡◌, refl, ap, subst, ltb, if◌then◌else◌, All-imp, Bool, true, false, none,
  some, List, [], ◌∷◌, ◌++◌, any, filter, take, last, arith, All, Option-cases, Bool-cases, inl,
  inr,
}

module _ {ℓ} {A : Type ℓ} (id : A → ℕ) where
  abbrev pub after : ℕ → List A → List A
  after n = filter (λ x. ltb n (id x))

  abbrev pub slice_after : ℕ → ℕ → List A → List A
  slice_after n k xs = take k (after n xs)

  last-All {κ} : (P : A → Type κ) (xs : List A) (l : A) → last xs ≡ some l → All P xs → P l
  last-All P [] l h ps = cc
  last-All P (x ∷ []) l h ps = let same : x ≡ l = cc in subst P same ps.0
  last-All P (x ∷ y ∷ xs) l h ps = last-All P (y ∷ xs) l h ps.1

  pub last-none : (xs : List A) → last xs ≡ none → xs ≡ []
  last-none [] h = refl
  last-none (x ∷ []) h = cc
  last-none (x ∷ y ∷ xs) h = ground (arith, last-none (y ∷ xs) h)

  last-cons : (x l : A) (xs : List A) → last xs ≡ some l → last (x ∷ xs) ≡ some l
  last-cons x l [] h = cc
  last-cons x l (y ∷ xs) h = h

  All-take {κ} : (P : A → Type κ) (k : ℕ) (xs : List A) → All P xs → All P (take k xs)
  All-take P zero xs ps = tt
  All-take P (suc k) [] ps = tt
  All-take P (suc k) (x ∷ xs) ps = (ps.0, All-take P k xs ps.1)

  All-if {κ} :
      (P : A → Type κ) (b : Bool) (x : A) (xs : List A)
      → (b ≡ true → P x)
      → All P xs
      → All P (if b then x ∷ xs else xs)
  All-if P true x xs h hs = (h refl, hs)
  All-if P false x xs h hs = hs

  All-filter {κ} :
      (P : A → Type κ) (p : A → Bool) (xs : List A)
      → All (λ x. p x ≡ true → P x) xs
      → All P (filter p xs)
  All-filter P p [] ps = tt
  All-filter P p (x ∷ xs) ps = All-if P (p x) x (filter p xs) ps.0 (All-filter P p xs ps.1)

  All-any {κ} : (P : A → Type κ) (xs : List A) → ((x : A) → P x) → All P xs
  All-any P [] f = tt
  All-any P (x ∷ xs) f = (f x, All-any P xs f)

  -- The last item of a page is behind its start, and behind all that is before the list.
  last-slice :
      (n m k : ℕ) (xs : List A) (l : A)
      → last (slice_after n k xs) ≡ some l
      → All (λ x. m < id x) xs
      → (n < id l) × (m < id l)
  last-slice n m k xs l h bound = (
    last-All (λ x. n < id x) _ l h
        (All-take _ k _ (All-filter _ _ xs (All-any _ xs λ x kept. ground arith))),
    last-All (λ x. m < id x) _ l h
        (All-take _ k _ (
          All-filter _ _ xs (
            All-imp (λ x. m < id x) (λ x. ltb n (id x) ≡ true → m < id x) xs (λ x b kept. b)
              bound))),
  )

  pub after_whole : (n : ℕ) (xs : List A) → All (λ x. n < id x) xs → after n xs ≡ xs
  after_whole n [] h = refl
  after_whole n (x ∷ xs) (h, hs) = ground (arith, h, after_whole n xs hs)

  pub any-after : (n : ℕ) (xs : List A) → any (λ x. ltb n (id x)) xs ≡ false → after n xs ≡ []
  any-after n [] h = refl
  any-after n (x ∷ xs) h = ground (arith, any-after n xs)

  -- In a sorted list, what is behind a page is what is behind its last item.
  pub after-slice :
      (n k : ℕ) (xs : List A) (l : A)
      → IsSorted id xs
      → last (slice_after n k xs) ≡ some l
      → after n xs ≡ slice_after n k xs ++ after (id l) xs
  after-slice n zero xs l s h = cc
  after-slice n (suc k) [] l s h = cc
  after-slice n (suc k) (x ∷ xs) l s h = elim (Bool-cases (ltb n (id x))) [
    | inl behind ↦ elim (Option-cases (last (slice_after n k xs))) [
      | inl only ↦
          let empty : slice_after n k xs ≡ [] = last-none (slice_after n k xs) only in
          let same : x ≡ l = ground (arith, h, behind, empty) in
          ground (
            arith,
            behind,
            empty,
            ap id same,
            after_whole (id x) xs s.0,
            after_whole n xs (
                All-imp (λ y. id x < id y) (λ y. n < id y) xs (λ y b. ground (arith, behind, b))
                  s.0),
          )
      | inr (l', more) ↦
          let same : l' ≡ l = ground (arith, h, behind, last-cons x l' (slice_after n k xs) more) in
          ground (
            arith,
            behind,
            ap id same,
            (last-slice n (id x) k xs l' more s.0).1,
            after-slice n k xs l' s.1 more,
          )
    ]
    | inr before ↦
        let later : last (slice_after n (suc k) xs) ≡ some l = ground (arith, h, before) in
        ground (
          arith,
          before,
          (last-slice n (id x) (suc k) xs l later s.0).1,
          after-slice n (suc k) xs l s.1 later,
        )
  ]
