-- ===== src/Idempotency.antt =====
-- common/idempotency/idempotency.interceptor.ts: the answer to a POST that repeats its key.
pub mod Records
pub mod History
pub mod Spaced
pub mod Replies
use course_project.Base.{
  ℕ, ◌+◌, ltb, Bool, true, false, Option, none, some, List, [], ◌∷◌, if◌then◌else◌,
}
use course_project.Base.Text.{Text, text_eq, truthy}
use course_project.Js.{Json, null, Host}

-- `KEY_TTL_MS`, in milliseconds
abbrev pub key_ttl : ℕ
key_ttl = 86400000

pub data State : Type 0 where
  in_flight done : State

-- `IdemRecord`; `B` are the bodies of the handlers' responses.
pub record IdemRecord (B : Type 0) : Type 0 where
  pub state : State
  pub fingerprint : Text
  pub expires_at : ℕ
  pub body : Option B

-- A `Map` is its entries in insertion order.
abbrev pub Records : Type 0 → Type 0
Records B = List (Text × IdemRecord B)

-- How the interceptor answers: the handler runs with no record kept, the handler runs and the key is
-- in flight, a 422, a 409, or a 201 with the old body and the id for the header `Location`.
pub data Reply (B : Type 0) : Type 0 where
  passed : Reply B
  started : Text → Text → Reply B
  key_reuse still_in_flight : Reply B
  replayed : Option B → Option ℕ → Reply B

module _ {B : Type 0} where
  unfoldable pub get : Text → Records B → Option (IdemRecord B)
  get k [] = none
  get k ((j, r) ∷ m) = if text_eq j k then some r else get k m

  -- `Map.set`: an entry keeps its place
  unfoldable pub set : Text → IdemRecord B → Records B → Records B
  set k r [] = (k, r) ∷ []
  set k r ((j, s) ∷ m) = if text_eq j k then (j, r) ∷ m else (j, s) ∷ set k r m

  -- The keys of a `Map` are distinct, so deleting the entry that the scan is at drops it alone.
  unfoldable pub sweep : ℕ → Records B → Records B
  sweep now [] = []
  sweep now ((k, r) ∷ m) = if ltb now r.expires_at then (k, r) ∷ m else sweep now m

  -- The `mergeMap` on the handler's response, with the variables of its closure.
  unfoldable pub complete : Text → Text → ℕ → Option B → Records B → Records B
  unfolding set
  complete k fingerprint expires_at body =
      set k
        (record { state = done; fingerprint = fingerprint; expires_at = expires_at; body = body })

  module _ (id_of : B → ℕ) where
    abbrev pub location : Option B → Option ℕ
    location none = none
    location (some b) = some (id_of b)

    abbrev pub reply_to : Text → IdemRecord B → Reply B
    reply_to fingerprint rec =
        if text_eq rec.fingerprint fingerprint
        then (elim rec.state [
          | in_flight ↦ still_in_flight
          | done ↦ replayed rec.body (location rec.body)
        ])
        else key_reuse

    abbrev pub answer : ℕ → Text → Text → Records B → Reply B × Records B
    answer now k fingerprint m = elim (get k m) [
      | some rec ↦ (reply_to fingerprint rec, m)
      | none ↦ (
        started k fingerprint,
        set k
            (record {
              state = in_flight;
              fingerprint = fingerprint;
              expires_at = now + key_ttl;
              body = none;
            })
            m,
      )
    ]

    unfoldable pub handle : ℕ → Text → Text → Records B → Reply B × Records B
    handle now k fingerprint m = answer now k fingerprint (sweep now m)

    module _ (host : Host) where
      -- `sha256(JSON.stringify(req.body ?? null))`
      abbrev pub fingerprint_of : Option Json → Text
      fingerprint_of none = host.sha256 null
      fingerprint_of (some body) = host.sha256 body

      unfoldable pub intercept :
          ℕ
          → (post : Bool) → (key : Option Text) → (body : Option Json) → Records B
          → Reply B × Records B
      unfolding handle
      intercept now false key body m = (passed, m)
      intercept now true none body m = (passed, m)
      intercept now true (some k) body m =
          if truthy k then handle now k (fingerprint_of body) m else (passed, m)
