-- ===== src/Seed/Loop.antt =====
-- seed.ts: its three loops, `for (const row of rows) { find or save; map.set(…) }`.
use course_project.Base.{
  ◌≡◌, ◌⊎◌, inl, inr, refl, ap, sym, ◌∙◌, subst, List, [], ◌∷◌, All, All-imp, Result, ok, err,
  arith,
}

module _ {R V S E : Type 0} (step : R → S → Result E V × S) where
  abbrev pub after_turn :
      (List V → S → Result E (List V) × S) → List V → Result E V × S → Result E (List V) × S
  after_turn rest seen (err e, s) = (err e, s)
  after_turn rest seen (ok v, s) = rest (v ∷ seen) s

  -- What the loop remembers of each row, the last first. A turn that throws ends the loop and leaves
  -- what was saved.
  abbrev pub loop : List R → List V → S → Result E (List V) × S
  loop [] seen s = (ok seen, s)
  loop (row ∷ rows) seen s = after_turn (loop rows) seen (step row s)

  -- What holds of the outcome of a turn that does not throw.
  abbrev pub Holds : (V → S → Type 0) → Result E V × S → Type 0
  Holds P (err e, t) = Unit {0}
  Holds P (ok v, t) = P v t

  -- A turn leaves its row done, no other turn undoes it, and a turn for a row that is done changes
  -- nothing.
  pub record IsSettling (IsDone : R → V → S → Type 0) : Type 0 where
    pub done : (r : R) (s : S) → Holds (IsDone r) (step r s)
    pub keep : (r q : R) (v : V) (s : S) → IsDone r v s → Holds (λ _ t. IsDone r v t) (step q s)
    pub idle : (r : R) (v : V) (s : S) → IsDone r v s → step r s ≡ (ok v, s)

  turn-cases :
      (x : Result E V × S)
      → ((e : E) × (t : S) × (x ≡ (err e, t))) ⊎ ((v : V) × (t : S) × (x ≡ (ok v, t)))
  turn-cases (err e, t) = inl (e, t, refl)
  turn-cases (ok v, t) = inr (v, t, refl)

  turn-ok :
      (row : R) (rows : List R) (seen : List V) (v : V) (s t : S)
      → step row s ≡ (ok v, t)
      → loop (row ∷ rows) seen s ≡ loop rows (v ∷ seen) t
  turn-ok row rows seen v s t turn = ap (after_turn (loop rows) seen) turn

  turn-err :
      (row : R) (rows : List R) (seen : List V) (e : E) (s t : S)
      → step row s ≡ (err e, t)
      → loop (row ∷ rows) seen s ≡ (err e, t)
  turn-err row rows seen e s t turn = ap (after_turn (loop rows) seen) turn

  module _ (IsDone : R → V → S → Type 0) (laws : IsSettling IsDone) where
    abbrev AllDone : Result E (List V) × S → Type 0
    AllDone (err e, t) = Unit {0}
    AllDone (ok seen, t) = All (λ v. (r : R) × IsDone r v t) seen

    loop-keep :
        (rows : List R) (seen seen' : List V) (s t : S) (r : R) (v : V)
        → IsDone r v s
        → loop rows seen s ≡ (ok seen', t)
        → IsDone r v t
    loop-keep [] seen seen' s t r v d h = subst (IsDone r v) (ap (λ p. p.1) h) d
    loop-keep (row ∷ rows) seen seen' s t r v d h = elim (turn-cases (step row s)) [
      | inl (e, u, stop) ↦ ground (arith, sym (turn-err row rows seen e s u stop) ∙ h)
      | inr (w, u, turn) ↦
          loop-keep rows (w ∷ seen) seen' u t r v
            (subst (Holds (λ _ x. IsDone r v x)) turn (laws.keep r row v s d))
            (sym (turn-ok row rows seen w s u turn) ∙ h)
    ]

    -- A second run of a loop that succeeds changes nothing, and remembers the same.
    pub loop-again :
        (rows : List R) (seen seen' : List V) (s t : S)
        → loop rows seen s ≡ (ok seen', t)
        → loop rows seen t ≡ (ok seen', t)
    loop-again [] seen seen' s t h = ground (arith, h)
    loop-again (row ∷ rows) seen seen' s t h = elim (turn-cases (step row s)) [
      | inl (e, u, stop) ↦ ground (arith, sym (turn-err row rows seen e s u stop) ∙ h)
      | inr (w, u, turn) ↦
          let rest = sym (turn-ok row rows seen w s u turn) ∙ h in
          let d =
            loop-keep rows (w ∷ seen) seen' u t row w
              (subst (Holds (IsDone row)) turn (laws.done row s)) rest in
          turn-ok row rows seen w t t (laws.idle row w t d)
          ∙ loop-again rows (w ∷ seen) seen' u t rest
    ]

    -- Each thing that a loop remembers is of a row that is done.
    pub loop-done :
        (rows : List R) (seen seen' : List V) (s t : S)
        → All (λ v. (r : R) × IsDone r v s) seen
        → loop rows seen s ≡ (ok seen', t)
        → All (λ v. (r : R) × IsDone r v t) seen'
    loop-done [] seen seen' s t h run = subst (λ (p : Result E (List V) × S). AllDone p) run h
    loop-done (row ∷ rows) seen seen' s t h run = elim (turn-cases (step row s)) [
      | inl (e, u, stop) ↦ ground (arith, sym (turn-err row rows seen e s u stop) ∙ run)
      | inr (w, u, turn) ↦
          let new : (r : R) × IsDone r w u =
            (row, subst (Holds (IsDone row)) turn (laws.done row s)) in
          let old =
            All-imp _ (λ v. (r : R) × IsDone r v u) seen
              (λ v p. (p.0, subst (Holds (λ _ x. IsDone p.0 v x)) turn (laws.keep p.0 row v s p.1)))
              h in
          loop-done rows (w ∷ seen) seen' u t (new, old)
            (sym (turn-ok row rows seen w s u turn) ∙ run)
    ]
