-- ===== src/Idempotency/History.antt =====
-- common/idempotency/idempotency.interceptor.ts: histories of requests and of handlers that return.
use course_project.Base.{
  ℕ, ◌+◌, ◌≡◌, ◌≤◌, ◌<◌, ltb, ◌==◌, ◌&&◌, Bool, true, Option, none, some, List, [], ◌∷◌, arith, All,
  All-imp, any, Bool-cases, inl, inr,
}
use course_project.Base.Text.{Text, text_eq, text_eq_iff, text_eq_refl}
use course_project.Js.{Json, Host}
use course_project.Idempotency.{
  key_ttl, in_flight, IdemRecord, Records, Reply, started, get, set, sweep, complete, intercept,
}
use course_project.Idempotency.Records.{
  get-set, get-sweep_live, IsOrdered, IsOrdered-sweep, IsOrdered-set_new, All-sweep, All-set,
}

-- The interceptor's map, the time of the last event, and the keys for which a handler was started,
-- with the times, the latest first.
pub record World (B : Type 0) : Type 0 where
  pub records : Records B
  pub now : ℕ
  pub starts : List (Text × ℕ)

abbrev pub fresh : {B : Type 0} → World B
fresh = record { records = []; now = 0; starts = [] }

abbrev pub has_start : Text → ℕ → List (Text × ℕ) → Bool
has_start k t = any λ s. text_eq s.0 k && s.1 == t

abbrev pub noted : {B : Type 0} → ℕ → Reply B → List (Text × ℕ) → List (Text × ℕ)
noted t (started k fingerprint) starts = (k, t) ∷ starts
noted t _ starts = starts

module _ {B : Type 0} (id_of : B → ℕ) (host : Host) where
  abbrev pub after_request : ℕ → Bool → Option Text → Option Json → World B → World B
  after_request t post key body w =
      let (reply, m) = intercept id_of host t post key body w.records in
      record { records = m; now = t; starts = noted t reply w.starts }

  -- Time does not run back. A handler that was started returns before its key expires, or fails,
  -- which changes nothing.
  pub data Step : World B → World B → Type 0 where
    request :
        (w : World B) (t : ℕ) (post : Bool) (key : Option Text) (body : Option Json)
        → w.now ≤ t
        → Step w (after_request t post key body w)
    returned :
        (w : World B) (t start : ℕ) (k fingerprint : Text) (body : Option B)
        → w.now ≤ t
        → t < start + key_ttl
        → has_start k start w.starts ≡ true
        → Step w (record w {
          records = complete k fingerprint (start + key_ttl) body w.records;
          now = t;
        })

  pub data Reach : World B → Type 0 where
    here : Reach fresh
    next : {v w : World B} → Reach v → Step v w → Reach w

-- Between two starts for one key its time to live has passed.
abbrev pub IsSpaced : List (Text × ℕ) → Type 0
IsSpaced [] = Unit
IsSpaced ((k, t) ∷ starts) = All (λ s. s.0 ≡ k → s.1 + key_ttl ≤ t) starts × IsSpaced starts

-- Each start whose time to live has not passed has its record.
pub record IsValid {B : Type 0} (w : World B) : Type 0 where
  pub ordered : IsOrdered 0 w.records
  pub bounded : All (λ e. e.1.expires_at ≤ w.now + key_ttl) w.records
  pub recorded :
      (k : Text) (t : ℕ)
      → has_start k t w.starts ≡ true
      → w.now < t + key_ttl
      → (r : IdemRecord B) × (get k w.records ≡ some r) × (r.expires_at ≡ t + key_ttl)
  pub spaced : IsSpaced w.starts

starts-All :
    (P : (Text × ℕ) → Type 0) (starts : List (Text × ℕ))
    → ((k : Text) (t : ℕ) → has_start k t starts ≡ true → P (k, t))
    → All P starts
starts-All P [] f = tt
starts-All P ((k, t) ∷ starts) f =
    (f k t (ground (arith, text_eq_refl k)), starts-All P starts λ j u h. f j u (ground (arith, h)))

module _ {B : Type 0} (w : World B) (t : ℕ) (v : IsValid w) (le : w.now ≤ t) where
  -- A start that is live at `t` still has its record after the sweep.
  swept-recorded :
      (k : Text) (u : ℕ)
      → has_start k u w.starts ≡ true
      → t < u + key_ttl
      → (r : IdemRecord B) × (get k (sweep t w.records) ≡ some r) × (r.expires_at ≡ u + key_ttl)
  swept-recorded k u h live =
      let (r, found, expiry) = v.recorded k u h (omega arith) in
      (r, get-sweep_live t k r w.records found (omega (arith, expiry)), expiry)

  swept-bounded : All (λ e. e.1.expires_at ≤ t + key_ttl) (sweep t w.records)
  swept-bounded = All-sweep _ t w.records (
      All-imp (λ e. e.1.expires_at ≤ w.now + key_ttl) (λ e. e.1.expires_at ≤ t + key_ttl) w.records
        (λ e b. omega (arith, b)) v.bounded)

  pub swept-IsValid : IsValid (record w { records = sweep t w.records; now = t })
  swept-IsValid = record {
    ordered = IsOrdered-sweep t 0 w.records v.ordered;
    bounded = swept-bounded;
    recorded = swept-recorded;
    spaced = v.spaced;
  }

  -- A key that the sweep leaves without a record was not started within its time to live.
  free-All :
      (k : Text)
      → get k (sweep t w.records) ≡ none
      → All (λ s. s.0 ≡ k → s.1 + key_ttl ≤ t) w.starts
  free-All k free = starts-All _ w.starts λ j u h same. elim (Bool-cases (ltb t (u + key_ttl))) [
    | inl live ↦ absurd (let (r, found, expiry) = swept-recorded j u h (ground (arith, live)) in cc)
    | inr past ↦ ground (arith, past)
  ]

  module _ (k fingerprint : Text) (free : get k (sweep t w.records) ≡ none) where
    abbrev pub claim : IdemRecord B
    claim = record {
      state = in_flight;
      fingerprint = fingerprint;
      expires_at = t + key_ttl;
      body = none;
    }

    claimed-recorded :
        (j : Text) (u : ℕ)
        → has_start j u ((k, t) ∷ w.starts) ≡ true
        → t < u + key_ttl
        → (r : IdemRecord B) × (get j (set k claim (sweep t w.records)) ≡ some r)
          × (r.expires_at ≡ u + key_ttl)
    claimed-recorded j u h live = elim (Bool-cases (text_eq k j && t == u)) [
      | inl this ↦
          (claim, ground (arith, this, get-set k j claim (sweep t w.records)), ground (arith, this))
      | inr earlier ↦
          let (r, found, expiry) = swept-recorded j u (ground (arith, earlier, h)) live in
          (
            r,
            ground (arith, found, free, text_eq_iff k j, get-set k j claim (sweep t w.records)),
            expiry,
          )
    ]

    pub claimed-IsValid :
        IsValid (record {
          records = set k claim (sweep t w.records);
          now = t;
          starts = (k, t) ∷ w.starts;
        })
    claimed-IsValid = record {
      ordered =
          IsOrdered-set_new 0 k claim (sweep t w.records) (IsOrdered-sweep t 0 w.records v.ordered)
            (omega arith) free swept-bounded;
      bounded =
          All-set (λ e. e.1.expires_at ≤ t + key_ttl) k claim (sweep t w.records) (λ j. omega arith)
            swept-bounded;
      recorded = claimed-recorded;
      spaced = (free-All k free, v.spaced);
    }
