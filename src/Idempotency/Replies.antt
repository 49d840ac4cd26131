-- ===== src/Idempotency/Replies.antt =====
-- common/idempotency/idempotency.interceptor.ts: the replies on a repeated key.
use course_project.Base.{
  List, [], All, ◌≢◌, ℕ, ◌+◌, ◌≡◌, ◌<◌, ◌∙◌, ap, Option, none, some, ◌∷◌, if◌then◌else◌, arith,
  Option-cases, inl, inr,
}
use course_project.Base.Text.{Text, text_eq, text_eq_refl, text_eq_iff}
use course_project.Idempotency.{
  key_ttl, in_flight, done, IdemRecord, Records, started, still_in_flight, key_reuse, replayed, get,
  set, sweep, complete, handle, location, reply_to,
}
use course_project.Idempotency.Records.{get-set, get-sweep_live}

get-set_self :
    {B : Type 0} (k : Text) (r : IdemRecord B) (m : Records B) → get k (set k r m) ≡ some r
get-set_self k r m = get-set k k r m ∙ ap (λ b. if b then some r else get k m) (text_eq_refl k)

-- A live record decides the reply.
handle-live :
    {B : Type 0} (id_of : B → ℕ) (t : ℕ) (k fingerprint : Text) (r : IdemRecord B) (m : Records B)
    → get k m ≡ some r
    → t < r.expires_at
    → (handle id_of t k fingerprint m).0 ≡ reply_to id_of fingerprint r
unfolding handle
handle-live id_of t k fingerprint r m found live = ground (arith, get-sweep_live t k r m found live)

-- What other callers do in between: a request for any key, or the return of a handler.
pub data Turn (B : Type 0) : Type 0 where
  asked : (at : ℕ) → (key : Text) → (fingerprint : Text) → Turn B
  answered : (key : Text) → (fingerprint : Text) → (expires_at : ℕ) → (body : Option B) → Turn B

module _ {B : Type 0} (id_of : B → ℕ) where
  abbrev pub after_turn : Turn B → Records B → Records B
  after_turn (asked at key fingerprint) m = (handle id_of at key fingerprint m).1
  after_turn (answered key fingerprint expires_at body) m =
      complete key fingerprint expires_at body m

  abbrev pub after_turns : List (Turn B) → Records B → Records B
  after_turns [] m = m
  after_turns (turn ∷ turns) m = after_turns turns (after_turn turn m)

-- A request comes before `end`, and a handler that returns is one of another key than `k`.
abbrev pub IsBefore : {B : Type 0} → ℕ → Text → Turn B → Type 0
IsBefore end k (asked at key fingerprint) = at < end
IsBefore end k (answered key fingerprint expires_at body) = key ≢ k

module _ {B : Type 0} (id_of : B → ℕ) (k : Text) (r : IdemRecord B) where
  -- A request for any key leaves a live record as it is.
  handle-keeps :
      (t : ℕ) (key fingerprint : Text) (m : Records B)
      → get k m ≡ some r
      → t < r.expires_at
      → get k (handle id_of t key fingerprint m).1 ≡ some r
  unfolding handle
  handle-keeps t key fingerprint m found live =
      let claim : IdemRecord B = record {
        state = in_flight;
        fingerprint = fingerprint;
        expires_at = t + key_ttl;
        body = none;
      } in
      let swept = get-sweep_live t k r m found live in
      elim (Option-cases (get key (sweep t m))) [
        | inl free ↦ ground (arith, free, swept, text_eq_iff key k, get-set key k claim (sweep t m))
        | inr (s, taken) ↦ ground (arith, taken, swept)
      ]

  after_turns-keeps :
      (turns : List (Turn B)) (m : Records B)
      → get k m ≡ some r
      → All (IsBefore r.expires_at k) turns
      → get k (after_turns id_of turns m) ≡ some r
  unfolding complete
  after_turns-keeps [] m found before = found
  after_turns-keeps (asked at key fingerprint ∷ turns) m found (live, before) =
      after_turns-keeps turns _ (handle-keeps at key fingerprint m found live) before
  after_turns-keeps (answered key fingerprint expires_at body ∷ turns) m found (other, before) =
      after_turns-keeps turns _
        (ground (
          arith,
          found,
          other,
          text_eq_iff key k,
          get-set key k
              (record {
                state = done;
                fingerprint = fingerprint;
                expires_at = expires_at;
                body = body;
              })
              m,
        ))
        before

module _ {B : Type 0} (id_of : B → ℕ) (m : Records B) (k : Text) where
  -- After a handler has returned, and whatever requests have come and handlers of other keys have
  -- returned since, a request with its key, before the key expires, gets its body again if the
  -- request's fingerprint is the same, and a refusal if it is not, and no handler runs.
  pub handle-complete :
      (fingerprint again : Text) (expires_at t : ℕ) (body : Option B) (turns : List (Turn B))
      → All (IsBefore expires_at k) turns
      → t < expires_at
      → (handle id_of t k again
          (after_turns id_of turns (complete k fingerprint expires_at body m))).0
        ≡ (if text_eq fingerprint again then replayed body (location id_of body) else key_reuse)
  unfolding complete
  handle-complete fingerprint again expires_at t body turns before live =
      let finished : IdemRecord B = record {
        state = done;
        fingerprint = fingerprint;
        expires_at = expires_at;
        body = body;
      } in
      handle-live id_of t k again finished (after_turns id_of turns (set k finished m))
        (after_turns-keeps id_of k finished turns (set k finished m) (get-set_self k finished m)
          before)
        live
      ∙ ground arith

  -- From the start of a handler until its key expires, whatever requests come and handlers of other
  -- keys return, every request with the key is refused if no handler of the key returns: the key
  -- of a handler that failed cannot be tried again.
  pub handle-started :
      (fingerprint again : Text) (start t : ℕ) (m' : Records B) (turns : List (Turn B))
      → handle id_of start k fingerprint m ≡ (started k fingerprint, m')
      → All (IsBefore (start + key_ttl) k) turns
      → t < start + key_ttl
      → (handle id_of t k again (after_turns id_of turns m')).0
        ≡ (if text_eq fingerprint again then still_in_flight else key_reuse)
  unfolding handle
  handle-started fingerprint again start t m' turns begun before live =
      let claim : IdemRecord B = record {
        state = in_flight;
        fingerprint = fingerprint;
        expires_at = start + key_ttl;
        body = none;
      } in
      elim (Option-cases (get k (sweep start m))) [
        | inl free ↦
            let after : m' ≡ set k claim (sweep start m) = ground (arith, begun, free) in
            ap (λ n. (handle id_of t k again (after_turns id_of turns n)).0) after
            ∙ handle-live id_of t k again claim
                (after_turns id_of turns (set k claim (sweep start m)))
                (after_turns-keeps id_of k claim turns (set k claim (sweep start m))
                  (get-set_self k claim (sweep start m)) before)
                live
            ∙ ground arith
        | inr (r, found) ↦ absurd (ground (arith, begun, found))
      ]

module _ {B : Type 0} (id_of : B → ℕ) (m : Records B) (k : Text) where
  -- If a handler returns after the sweep has dropped its record, while the first record is live, its
  -- key goes to the end with the time of expiry that it had. A later request with the key, until the
  -- first record expires, gets the body again or is refused, also if the key has expired.
  handle-complete_late :
      (j : Text) (first : IdemRecord B) (fingerprint again : Text) (expires_at t : ℕ)
      (body : Option B)
      → get k ((j, first) ∷ m) ≡ none
      → t < first.expires_at
      → (handle id_of t k again (complete k fingerprint expires_at body ((j, first) ∷ m))).0
        ≡ (if text_eq fingerprint again then replayed body (location id_of body) else key_reuse)
  unfolding handle complete set sweep get
  handle-complete_late j first fingerprint again expires_at t body dropped live =
      let finished : IdemRecord B = record {
        state = done;
        fingerprint = fingerprint;
        expires_at = expires_at;
        body = body;
      } in
      ground (arith, dropped, live, get-set_self k finished m)
