-- ===== src/Idempotency/Records.antt =====
-- common/idempotency/idempotency.interceptor.ts: what `get` finds after `set` and after the sweep.
use course_project.Base.{
  ℕ, ◌≡◌, subst, ◌≤◌, ◌<◌, refl, ltb, Bool, true, false, none, some, [], ◌∷◌, if◌then◌else◌, arith,
  All, filter, Bool-cases, inl, inr,
}
use course_project.Base.Text.{Text, text_eq, text_eq_iff}
use course_project.Idempotency.{IdemRecord, Records, get, set, sweep}

module _ {B : Type 0} where
  pub get-set :
      (k j : Text) (r : IdemRecord B) (m : Records B)
      → get j (set k r m) ≡ (if text_eq k j then some r else get j m)
  unfolding get set
  get-set k j r [] = refl
  get-set k j r ((i, s) ∷ m) =
      ground (arith, text_eq_iff k j, text_eq_iff i k, text_eq_iff i j, get-set k j r m)

  -- The sweep keeps what is live.
  pub get-sweep_live :
      (now : ℕ) (k : Text) (r : IdemRecord B) (m : Records B)
      → get k m ≡ some r
      → now < r.expires_at
      → get k (sweep now m) ≡ some r
  unfolding get sweep
  get-sweep_live now k r [] h live = cc
  get-sweep_live now k r ((j, s) ∷ m) h live = ground (arith, get-sweep_live now k r m)

  -- The entries are in the order in which they expire, none before `lo`.
  abbrev pub IsOrdered : ℕ → Records B → Type 0
  IsOrdered lo [] = Unit
  IsOrdered lo ((k, r) ∷ m) = (lo ≤ r.expires_at) × IsOrdered r.expires_at m

  abbrev pub is_live : ℕ → (Text × IdemRecord B) → Bool
  is_live now e = ltb now e.1.expires_at

  filter-IsOrdered :
      (now lo : ℕ) (m : Records B) → IsOrdered lo m → now < lo → filter (is_live now) m ≡ m
  filter-IsOrdered now lo [] h live = refl
  filter-IsOrdered now lo ((k, r) ∷ m) (le, h) live =
      ground (arith, filter-IsOrdered now r.expires_at m h)

  -- On ordered entries the scan that stops at the first live record drops all that have expired.
  pub sweep-IsOrdered :
      (now lo : ℕ) (m : Records B) → IsOrdered lo m → sweep now m ≡ filter (is_live now) m
  unfolding sweep
  sweep-IsOrdered now lo [] h = refl
  sweep-IsOrdered now lo ((k, r) ∷ m) (le, h) =
      ground (arith, sweep-IsOrdered now r.expires_at m h, filter-IsOrdered now r.expires_at m h)

  pub IsOrdered_weaken : (lo lo' : ℕ) (m : Records B) → lo' ≤ lo → IsOrdered lo m → IsOrdered lo' m
  IsOrdered_weaken lo lo' [] le h = tt
  IsOrdered_weaken lo lo' ((k, r) ∷ m) le h = (omega (arith, h.0), h.1)

  pub IsOrdered-sweep : (now lo : ℕ) (m : Records B) → IsOrdered lo m → IsOrdered lo (sweep now m)
  unfolding sweep
  IsOrdered-sweep now lo [] h = tt
  IsOrdered-sweep now lo ((k, r) ∷ m) h =
      swept (ltb now r.expires_at)
        (IsOrdered-sweep now lo m (IsOrdered_weaken r.expires_at lo m h.0 h.1))
    where
      swept :
          (b : Bool)
          → IsOrdered lo (sweep now m)
          → IsOrdered lo (if b then (k, r) ∷ m else sweep now m)
      swept true ih = h
      swept false ih = ih

  -- A new key goes to the end.
  pub IsOrdered-set_new :
      (lo : ℕ) (k : Text) (r : IdemRecord B) (m : Records B)
      → IsOrdered lo m
      → lo ≤ r.expires_at
      → get k m ≡ none
      → All (λ e. e.1.expires_at ≤ r.expires_at) m
      → IsOrdered lo (set k r m)
  unfolding get set
  IsOrdered-set_new lo k r [] h le new below = (le, tt)
  IsOrdered-set_new lo k r ((j, s) ∷ m) h le new below = elim (Bool-cases (text_eq j k)) [
    | inl same ↦ absurd (ground (arith, same))
    | inr other ↦
        rw other
          (h.0, IsOrdered-set_new s.expires_at k r m h.1 below.0 (ground (arith, other)) below.1)
  ]

  -- An old key stays in its place.
  pub IsOrdered-set_old :
      (lo : ℕ) (k : Text) (r s : IdemRecord B) (m : Records B)
      → IsOrdered lo m
      → get k m ≡ some s
      → s.expires_at ≡ r.expires_at
      → IsOrdered lo (set k r m)
  unfolding get set
  IsOrdered-set_old lo k r s [] h old same = cc
  IsOrdered-set_old lo k r s ((j, u) ∷ m) h old same = elim (Bool-cases (text_eq j k)) [
    | inl here ↦
        let at_key : u.expires_at ≡ r.expires_at = ground (arith, here) in
        rw here (omega (arith, h.0), IsOrdered_weaken u.expires_at r.expires_at m (omega arith) h.1)
    | inr other ↦
        rw other (h.0, IsOrdered-set_old u.expires_at k r s m h.1 (ground (arith, other)) same)
  ]

  pub All-sweep :
      (P : (Text × IdemRecord B) → Type 0) (now : ℕ) (m : Records B) → All P m → All P (sweep now m)
  unfolding sweep
  All-sweep P now [] h = tt
  All-sweep P now ((k, r) ∷ m) h = elim (Bool-cases (ltb now r.expires_at)) [
    | inl live ↦ rw live h
    | inr expired ↦ rw expired (All-sweep P now m h.1)
  ]

  pub All-set :
      (P : (Text × IdemRecord B) → Type 0) (k : Text) (r : IdemRecord B) (m : Records B)
      → ((j : Text) → P (j, r))
      → All P m
      → All P (set k r m)
  unfolding set
  All-set P k r [] p h = (p k, tt)
  All-set P k r ((j, s) ∷ m) p h = elim (Bool-cases (text_eq j k)) [
    | inl here ↦ rw here (p j, h.1)
    | inr other ↦ rw other (h.0, All-set P k r m p h.1)
  ]

  pub get-All :
      (P : IdemRecord B → Type 0) (k : Text) (r : IdemRecord B) (m : Records B)
      → All (λ e. P e.1) m
      → get k m ≡ some r
      → P r
  unfolding get
  get-All P k r [] h found = cc
  get-All P k r ((j, s) ∷ m) h found = elim (Bool-cases (text_eq j k)) [
    | inl same ↦ let at_key : s ≡ r = ground (arith, same) in subst P at_key h.0
    | inr other ↦ get-All P k r m h.1 (ground (arith, other))
  ]
