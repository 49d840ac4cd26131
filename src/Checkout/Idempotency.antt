-- ===== src/Checkout/Idempotency.antt =====
-- The idempotency key: it names one order for ever.
use course_project.Base.{
  ℕ, ◌≡◌, false, Option, none, some, List, [], ◌∷◌, ◌++◌, arith, ok, err, inl, inr,
  find-append_some, Bool-cases, subst, ◌∙◌, if◌then◌else◌,
}
use course_project.Base.Text.{Text, text_eq, text_eq_iff, text_eq_refl}
use course_project.Js.{Host}
use course_project.Db.Rows.{Db, IdempotencyKey}
use course_project.Checkout.Steps.{
  CheckoutInput, Clock, idempotency_reuse, Placed, trimmed_key, lines_invalid, or_empty, find_key,
}
use course_project.Checkout.Run.{checkout, checkout_tx, claim_key}
use course_project.Checkout.Outcome.{
  claimed, bound, Trace, IsFree, committed, checkout_cases, checkout-eq-ok, Replays, Creates,
}
use course_project.Checkout.Conservation.{run}

-- The key `k` stands for order `id`, with its fingerprint.
abbrev pub Names : Text → Text → ℕ → Db → Type 0
Names k f id db =
    find_key k db.idempotency_keys ≡ some (record { key = k; fingerprint = f; order_id = some id })

-- A key with its order stays as it is while another key is bound.
bound_other :
    (j k : Text) (id : ℕ) (keys : List IdempotencyKey) (row : IdempotencyKey)
    → find_key k keys ≡ some row
    → text_eq j k ≡ false
    → find_key k (bound (some j) id keys) ≡ some row
bound_other j k id [] row h ne = cc
bound_other j k id (r ∷ keys) row h ne =
    ground (
      arith,
      text_eq_iff r.key k,
      text_eq_iff r.key j,
      text_eq_iff j k,
      bound_other j k id keys row,
    )

found_ne_free :
    (j k : Text) (keys : List IdempotencyKey) (row : IdempotencyKey)
    → find_key k keys ≡ some row
    → find_key j keys ≡ none
    → text_eq j k ≡ false
found_ne_free j k keys row found free = elim (Bool-cases (text_eq j k)) [
  | inl same ↦ cc (subst (λ x. find_key x keys ≡ none) ((text_eq_iff j k).0 same) free)
  | inr e ↦ e
]

find_key-key :
    (k : Text) (keys : List IdempotencyKey) (row : IdempotencyKey)
    → find_key k keys ≡ some row
    → row.key ≡ k
find_key-key k [] row h = cc
find_key-key k (r ∷ keys) row h = ground (arith, text_eq_iff r.key k, find_key-key k keys row)

abbrev new_row : Text → Text → IdempotencyKey
new_row k f = record { key = k; fingerprint = f; order_id = none }

-- A key that was just claimed is the one that is bound.
bound_new :
    (k f : Text) (id : ℕ) (keys : List IdempotencyKey)
    → find_key k keys ≡ none
    → find_key k (bound (some k) id (keys ++ new_row k f ∷ []))
      ≡ some (record { key = k; fingerprint = f; order_id = some id })
bound_new k f id [] h = ground (arith, text_eq_refl k)
bound_new k f id (r ∷ keys) h = ground (arith, bound_new k f id keys)

module _ (host : Host) (input : CheckoutInput) (clock : Clock) where
  committed-Names :
      (k f : Text) (id : ℕ) (key : Option Text) (db : Db) (t : Trace)
      → Names k f id db
      → IsFree key db
      → Names k f id (committed host input clock key (claimed key input db) t)
  committed-Names k f id none db t n free = n
  committed-Names k f id (some j) db t n free =
      bound_other j k db.seq.order _ _
        (find-append_some (λ (row : IdempotencyKey). text_eq row.key k) db.idempotency_keys _ _ n)
        (found_ne_free j k db.idempotency_keys _ n free)

  -- Later checkouts leave a named order alone.
  checkout-Names :
      (k f : Text) (id : ℕ) (db : Db)
      → Names k f id db
      → Names k f id (checkout host input clock db).1
  checkout-Names k f id db n =
      checkout_cases host input clock (Names k f id) db (λ s _. n)
        (λ t s free. committed-Names k f id (trimmed_key input.idempotency_key) db t n free)

  -- A call with a named key places nothing: it returns that order, or refuses another fingerprint.
  checkout-replay :
      (k f : Text) (id : ℕ) (db : Db)
      → trimmed_key input.idempotency_key ≡ some k
      → lines_invalid input.items ≡ false
      → Names k f id db
      → checkout host input clock db ≡ (
        if text_eq f (or_empty input.fingerprint)
            then ok (record { order_id = id; created = false })
            else err idempotency_reuse,
        db,
      )
  unfolding checkout checkout_tx claim_key
  checkout-replay k f id db key valid n = ground arith

  replay-Names :
      (k : Text) (key : Option Text) (db db' : Db) (p : Placed)
      → key ≡ some k
      → Replays host input clock key db db' p
      → Names k (or_empty input.fingerprint) p.order_id db'
  replay-Names k key db db' p e (j, row, e', found, f, o, _, same) =
      rw (same, j_is_k)
        (found ∙ ground (arith, find_key-key j db.idempotency_keys row found, f, o, j_is_k))
    where
      j_is_k : k ≡ j
      j_is_k = cc

  create-Names :
      (k : Text) (key : Option Text) (db db' : Db) (p : Placed)
      → key ≡ some k
      → Creates host input clock key db db' p
      → Names k (or_empty input.fingerprint) p.order_id db'
  create-Names k none db db' p e c = cc
  create-Names k (some j) db db' p e (t, s, free, o, same) =
      let k_is_j : k ≡ j = cc in
      rw (same, o, k_is_j)
        (bound_new j (or_empty input.fingerprint) db.seq.order db.idempotency_keys free)

  -- A call that returns leaves its key naming the order that it returned.
  returned-Names :
      (k : Text) (db db' : Db) (p : Placed)
      → trimmed_key input.idempotency_key ≡ some k
      → checkout host input clock db ≡ (ok p, db')
      → Names k (or_empty input.fingerprint) p.order_id db'
  returned-Names k db db' p key h = elim (checkout-eq-ok host input clock db db' p h).1 [
    | inl r ↦ replay-Names k (trimmed_key input.idempotency_key) db db' p key r
    | inr c ↦ create-Names k (trimmed_key input.idempotency_key) db db' p key c
  ]

run-Names :
    (host : Host) (k f : Text) (id : ℕ) (calls : List (CheckoutInput × Clock)) (db : Db)
    → Names k f id db
    → Names k f id (run host calls db)
unfolding run
run-Names host k f id [] db n = n
run-Names host k f id ((input, clock) ∷ calls) db n =
    run-Names host k f id calls (checkout host input clock db).1
      (checkout-Names host input clock k f id db n)

-- Once a checkout with a key has returned an order, then whatever checkouts follow it, a call with
-- that key and valid lines changes no table: it returns the same order, not created, if its
-- fingerprint is the same, and is refused as a reuse of the key if not.
pub checkout-retry :
    (host : Host) (first : CheckoutInput) (at : Clock) (calls : List (CheckoutInput × Clock))
    (again : CheckoutInput) (later : Clock) (k : Text) (db db' : Db) (p : Placed)
    → trimmed_key first.idempotency_key ≡ some k
    → checkout host first at db ≡ (ok p, db')
    → trimmed_key again.idempotency_key ≡ some k
    → lines_invalid again.items ≡ false
    → checkout host again later (run host calls db') ≡ (
      if text_eq (or_empty first.fingerprint) (or_empty again.fingerprint)
          then ok (record { order_id = p.order_id; created = false })
          else err idempotency_reuse,
      run host calls db',
    )
checkout-retry host first at calls again later k db db' p key h key' valid =
    checkout-replay host again later k (or_empty first.fingerprint) p.order_id (run host calls db')
      key' valid
      (run-Names host k (or_empty first.fingerprint) p.order_id calls db'
        (returned-Names host first at k db db' p key h))
