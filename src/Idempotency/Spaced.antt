-- ===== src/Idempotency/Spaced.antt =====
-- common/idempotency/idempotency.interceptor.ts: a key starts one handler within its time to live.
use course_project.Base.{
  ℕ, ◌+◌, ◌≡◌, ◌≤◌, ◌<◌, sym, subst, ◌∙◌, ap, Bool, true, false, Option, none, some, List, ◌∷◌,
  arith, All-imp, filter, Bool-cases, Option-cases, inl, inr,
}
use course_project.Base.Text.{Text, text_eq, text_eq_iff, truthy}
use course_project.Js.{Json, Host}
use course_project.Idempotency.{
  key_ttl, in_flight, done, IdemRecord, get, set, sweep, complete, intercept, handle,
  fingerprint_of, reply_to,
}
use course_project.Idempotency.Records.{
  get-set, is_live, sweep-IsOrdered, IsOrdered-set_old, All-set, get-All,
}
use course_project.Idempotency.History.{
  World, has_start, noted, after_request, Step, request, returned, Reach, here, next, IsSpaced,
  IsValid, swept-IsValid, claimed-IsValid,
}

module _ {B : Type 0} (id_of : B → ℕ) (host : Host) where
  abbrev claimed : ℕ → Text → IdemRecord B
  claimed t fingerprint = record {
    state = in_flight;
    fingerprint = fingerprint;
    expires_at = t + key_ttl;
    body = none;
  }

  -- The world after `handle`.
  abbrev handled : ℕ → Text → Text → World B → World B
  handled t k fingerprint w =
      let (reply, m) = handle id_of t k fingerprint w.records in
      record { records = m; now = t; starts = noted t reply w.starts }

  noted-reply_to :
      (t : ℕ) (fingerprint : Text) (r : IdemRecord B) (starts : List (Text × ℕ))
      → noted t (reply_to id_of fingerprint r) starts ≡ starts
  noted-reply_to t fingerprint r starts = ground arith

  handled-free :
      (t : ℕ) (k fingerprint : Text) (w : World B)
      → get k (sweep t w.records) ≡ none
      → handled t k fingerprint w ≡ record {
        records = set k (claimed t fingerprint) (sweep t w.records);
        now = t;
        starts = (k, t) ∷ w.starts;
      }
  unfolding handle
  handled-free t k fingerprint w free = ground (arith, free)

  handled-found :
      (t : ℕ) (k fingerprint : Text) (r : IdemRecord B) (w : World B)
      → get k (sweep t w.records) ≡ some r
      → handled t k fingerprint w
        ≡ record { records = sweep t w.records; now = t; starts = w.starts }
  unfolding handle
  handled-found t k fingerprint r w found =
      ground (arith, found, noted-reply_to t fingerprint r w.starts)

  handled-IsValid :
      (t : ℕ) (k fingerprint : Text) (w : World B)
      → w.now ≤ t
      → IsValid w
      → IsValid (handled t k fingerprint w)
  handled-IsValid t k fingerprint w le v = elim (Option-cases (get k (sweep t w.records))) [
    | inl free ↦
        subst IsValid (sym (handled-free t k fingerprint w free))
          (claimed-IsValid w t v le k fingerprint free)
    | inr (r, found) ↦
        subst IsValid (sym (handled-found t k fingerprint r w found)) (swept-IsValid w t v le)
  ]

  later-IsValid : (t : ℕ) (w : World B) → w.now ≤ t → IsValid w → IsValid (record w { now = t })
  later-IsValid t w le v = record {
    ordered = v.ordered;
    bounded =
        All-imp (λ e. e.1.expires_at ≤ w.now + key_ttl) (λ e. e.1.expires_at ≤ t + key_ttl)
          w.records (λ e b. omega (arith, b)) v.bounded;
    recorded = λ k u h live. v.recorded k u h (omega arith);
    spaced = v.spaced;
  }

  after_request-IsValid :
      (t : ℕ) (post : Bool) (key : Option Text) (body : Option Json) (w : World B)
      → w.now ≤ t
      → IsValid w
      → IsValid (after_request id_of host t post key body w)
  unfolding intercept
  after_request-IsValid t false key body w le v = later-IsValid t w le v
  after_request-IsValid t true none body w le v = later-IsValid t w le v
  after_request-IsValid t true (some k) body w le v = elim (Bool-cases (truthy k)) [
    | inl keyed ↦ rw keyed (handled-IsValid t k (fingerprint_of id_of host body) w le v)
    | inr empty ↦ rw empty (later-IsValid t w le v)
  ]

  completed-IsValid :
      (w : World B) (t start : ℕ) (k fingerprint : Text) (body : Option B)
      → w.now ≤ t
      → t < start + key_ttl
      → has_start k start w.starts ≡ true
      → IsValid w
      → IsValid
          (record w { records = complete k fingerprint (start + key_ttl) body w.records; now = t })
  unfolding complete
  completed-IsValid w t start k fingerprint body le live begun v =
      let (old, found, expiry) = v.recorded k start begun (omega arith) in
      let finished : IdemRecord B = record {
        state = done;
        fingerprint = fingerprint;
        expires_at = start + key_ttl;
        body = body;
      } in
      let in_time = get-All (λ r. r.expires_at ≤ w.now + key_ttl) k old w.records v.bounded found in
      let bounded = (later-IsValid t w le v).bounded in
      record {
        ordered = IsOrdered-set_old 0 k finished old w.records v.ordered found expiry;
        bounded =
            All-set (λ e. e.1.expires_at ≤ t + key_ttl) k finished w.records
              (λ j. omega (arith, expiry, in_time)) bounded;
        recorded = λ j u h later.
            let (r, at_j, expiry') = v.recorded j u h (omega arith) in
            elim (Bool-cases (text_eq k j)) [
              | inl same ↦
                  let one : old ≡ r = ground (arith, found, at_j, same, text_eq_iff k j) in
                  (
                    finished,
                    ground (arith, same, get-set k j finished w.records),
                    sym expiry ∙ ap (λ s. s.expires_at) one ∙ expiry',
                  )
              | inr other ↦
                  (r, ground (arith, other, at_j, get-set k j finished w.records), expiry')
            ];
        spaced = v.spaced;
      }

  Step-IsValid : {v w : World B} → Step id_of host v w → IsValid v → IsValid w
  Step-IsValid (request w t post key body le) v = after_request-IsValid t post key body w le v
  Step-IsValid (returned w t start k fingerprint body le live begun) v =
      completed-IsValid w t start k fingerprint body le live begun v

  pub Reach-IsValid : {w : World B} → Reach id_of host w → IsValid w
  Reach-IsValid here = record {
    ordered = tt;
    bounded = tt;
    recorded = λ k t h live. cc;
    spaced = tt;
  }
  Reach-IsValid (next r st) = Step-IsValid st (Reach-IsValid r)

  -- Whatever requests come and whichever handlers return or fail, if every handler that returns does
  -- so before its key expires, then any two starts of a handler for one key are at least the time
  -- to live apart.
  pub Reach-IsSpaced : {w : World B} → Reach id_of host w → IsSpaced w.starts
  Reach-IsSpaced r = (Reach-IsValid r).spaced

  -- In every such history, the sweep, which stops at the first live record, leaves exactly the
  -- records that have not expired.
  pub sweep-Reach :
      {w : World B} (t : ℕ) → Reach id_of host w → sweep t w.records ≡ filter (is_live t) w.records
  sweep-Reach {w} t r = sweep-IsOrdered t 0 w.records (Reach-IsValid r).ordered
