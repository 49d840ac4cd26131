-- ===== src/Checkout/Outcome.antt =====
-- What a checkout leaves behind, by how it ended.
use course_project.Base.{
  ◌≤◌, ap, ℕ, suc, ◌≡◌, true, false, Option, none, some, List, [], ◌∷◌, ◌++◌, ok, err, arith, inl,
  inr, Option-cases, Result-cases, update, ◌⊎◌,
}
use course_project.Base.Int.{pos}
use course_project.Base.Text.{Text, codes, text_eq, text_eq_iff}
use course_project.Js.{Host, num, obj, end, field, int}
use course_project.Db.Rows.{
  Db, User, OrderItem, paid, status_text, Job, OutboxRow, IdempotencyKey, Sequences,
}
use course_project.Broker.Event.{
  OrderPlacedEvent, order_placed_event, order_placed_type, event_json,
}
use course_project.Checkout.Steps.{
  CheckoutError, CheckoutInput, Clock, Placed, Reserved, lines_invalid, trimmed_key, or_empty,
  find_key, reserve_lines, debit,
}
use course_project.Checkout.Run.{
  order_row, claim_key, reserve, pay, insert_items, save_order, save_job, insert_outbox, bind_key,
  occurred_at, place_order, checkout_tx, checkout,
}

-- The accumulator that the loop over the lines starts from.
abbrev pub no_lines : Db → Reserved
no_lines db = record { lines = []; total = 0; products = db.products }

-- The row that claims a key, before an order is bound to it.
abbrev pub claimed : Option Text → CheckoutInput → Db → Db
claimed none input db = db
claimed (some k) input db = record db {
  idempotency_keys =
      db.idempotency_keys
      ++ (record { key = k; fingerprint = or_empty input.fingerprint; order_id = none }) ∷ [];
}

abbrev pub bound : Option Text → ℕ → List IdempotencyKey → List IdempotencyKey
bound none id keys = keys
bound (some k) id keys =
    update (λ (row : IdempotencyKey). text_eq row.key k) (λ row. record row { order_id = some id })
      keys

abbrev pub receipt_job : ℕ → ℕ → Job
receipt_job id order_id = record {
  id = id;
  kind = codes "receipt";
  payload = obj (field (codes "orderId") (num (int (pos order_id))) end);
  processed = 0;
  attempts = 0;
  worker_id = none;
}

abbrev pub outbox_row : ℕ → ℕ → OrderPlacedEvent → ℕ → OutboxRow
outbox_row id order_id event now = record {
  id = id;
  aggregate_type = codes "order";
  aggregate_id = order_id;
  type = order_placed_type;
  payload = event_json event;
  created_at = now;
  published_at = none;
  attempts = 0;
}

abbrev pub IsFree : Option Text → Db → Type 0
IsFree none db = Unit
IsFree (some k) db = find_key k db.idempotency_keys ≡ none

-- What the steps of one order computed on the way.
pub record Trace : Type 0 where
  pub reserved : Reserved
  pub users : List User
  pub items : List OrderItem
  pub next_item : ℕ

-- The steps succeeded one after another, from `db`.
pub record Succeeds (input : CheckoutInput) (db : Db) (t : Trace) : Type 0 where
  pub reserves : reserve_lines input.items (no_lines db) ≡ ok t.reserved
  pub pays : debit input.buyer_id t.reserved.total db.users ≡ ok t.users
  pub inserts :
      insert_items db.seq.order t.reserved.lines db.order_items db.seq.order_item
      ≡ (ok tt, t.items, t.next_item)

module _ (host : Host) (input : CheckoutInput) (clock : Clock) where
  abbrev pub placed_event : Db → Trace → OrderPlacedEvent
  placed_event db t =
      order_placed_event db.seq.order input.buyer_id t.reserved.total (status_text paid)
        (occurred_at host clock)

  -- The database with the order, its lines, its job and its outbox row, all under one commit.
  abbrev pub committed : Option Text → Db → Trace → Db
  committed key db t = record db {
    users = t.users;
    products = t.reserved.products;
    orders = db.orders ++ order_row db.seq.order input.buyer_id t.reserved.total clock.now ∷ [];
    order_items = t.items;
    jobs = db.jobs ++ receipt_job db.seq.job db.seq.order ∷ [];
    outbox = db.outbox ++ outbox_row db.seq.outbox db.seq.order (placed_event db t) clock.now ∷ [];
    idempotency_keys = bound key db.seq.order db.idempotency_keys;
    seq = record (db.seq) {
      order = suc db.seq.order;
      order_item = t.next_item;
      job = suc db.seq.job;
      outbox = suc db.seq.outbox;
    };
  }

  place_order-eq-ok :
      (key : Option Text) (db db' : Db) (p : Placed)
      → place_order host input clock key db ≡ (ok p, db')
      → (t : Trace) × Succeeds input db t
        × (p ≡ record { order_id = db.seq.order; created = true })
        × (db' ≡ committed key db t)
  unfolding place_order reserve pay save_order save_job insert_outbox bind_key
  place_order-eq-ok key db db' p h = elim (Result-cases (reserve_lines input.items (no_lines db))) [
    | inl (e, x) ↦ absurd (ground arith)
    | inr (r, x) ↦ elim (Result-cases (debit input.buyer_id r.total db.users)) [
      | inl (e, y) ↦ absurd (ground arith)
      | inr (us, y) ↦
          let out = insert_items db.seq.order r.lines db.order_items db.seq.order_item in
          elim (Result-cases out.0) [
            | inl (e, z) ↦ absurd (ground arith)
            | inr (_, z) ↦ (
              record { reserved = r; users = us; items = out.1; next_item = out.2 },
              record { reserves = x; pays = y; inserts = ground arith },
              ground arith,
              ground arith,
            )
          ]
    ]
  ]

  -- The trimmed key is bound to an order of the same fingerprint, and nothing changes.
  abbrev pub Replays : Option Text → Db → Db → Placed → Type 0
  Replays key db db' p =
      (k : Text) × (row : IdempotencyKey) × (key ≡ some k)
      × (find_key k db.idempotency_keys ≡ some row)
      × (row.fingerprint ≡ or_empty input.fingerprint)
      × (row.order_id ≡ some p.order_id)
      × (p.created ≡ false)
      × (db' ≡ db)

  -- The key is free, if there is one, and every step succeeds from the database that claims it.
  abbrev pub Creates : Option Text → Db → Db → Placed → Type 0
  Creates key db db' p =
      (t : Trace) × Succeeds input (claimed key input db) t
      × IsFree key db
      × (p ≡ record { order_id = db.seq.order; created = true })
      × (db' ≡ committed key (claimed key input db) t)

  checkout_tx-eq-ok :
      (key : Option Text) (db db' : Db) (p : Placed)
      → checkout_tx host input clock key db ≡ (ok p, db')
      → Replays key db db' p ⊎ Creates key db db' p
  unfolding checkout_tx claim_key
  checkout_tx-eq-ok none db db' p h =
      let (t, s, e, f) = place_order-eq-ok none db db' p h in inr (t, s, tt, e, f)
  checkout_tx-eq-ok (some k) db db' p h = elim (Option-cases (find_key k db.idempotency_keys)) [
    | inl free ↦
        let (t, s, e, f) =
          place_order-eq-ok (some k) (claimed (some k) input db) db' p (ground (arith, free)) in
        inr (t, s, free, e, f)
    | inr (row, taken) ↦
        inl (ground (arith, text_eq_iff row.fingerprint (or_empty input.fingerprint)))
  ]

  -- A checkout that throws leaves every table as it was; only the sequences may have moved.
  pub checkout-rolls_back :
      (db db' : Db) (e : CheckoutError)
      → checkout host input clock db ≡ (err e, db')
      → db' ≡ record db { seq = db'.seq }
  unfolding checkout
  checkout-rolls_back db db' e h = ground arith

  -- A checkout that returns was asked for valid lines, and has either replayed the order that its
  -- key is bound to, with nothing changed, or has placed one: stock and balance are reduced, and the
  -- order, its lines, the job, the outbox row and the bound key are written.
  pub checkout-eq-ok :
      (db db' : Db) (p : Placed)
      → checkout host input clock db ≡ (ok p, db')
      → (lines_invalid input.items ≡ false)
        × (Replays (trimmed_key input.idempotency_key) db db' p
            ⊎ Creates (trimmed_key input.idempotency_key) db db' p)
  unfolding checkout
  checkout-eq-ok db db' p h =
      (ground arith, checkout_tx-eq-ok (trimmed_key input.idempotency_key) db db' p (ground arith))

  place_order-seq :
      (key : Option Text) (db : Db)
      → db.seq.order ≤ (place_order host input clock key db).1.seq.order
  unfolding place_order reserve pay save_order save_job insert_outbox bind_key
  place_order-seq none db = ground arith
  place_order-seq (some k) db = ground arith

  checkout_tx-seq :
      (key : Option Text) (db : Db)
      → db.seq.order ≤ (checkout_tx host input clock key db).1.seq.order
  unfolding checkout_tx claim_key
  checkout_tx-seq none db = place_order-seq none db
  checkout_tx-seq (some k) db = ground (arith, place_order-seq (some k) (claimed (some k) input db))

  -- Order ids only grow.
  pub checkout-seq : (db : Db) → db.seq.order ≤ (checkout host input clock db).1.seq.order
  unfolding checkout
  checkout-seq db = ground (arith, checkout_tx-seq (trimmed_key input.idempotency_key) db)

  -- What holds after a rollback and after a commit holds after every call.
  pub checkout_cases :
      (P : Db → Type 0) (db : Db)
      → ((s : Sequences) → db.seq.order ≤ s.order → P (record db { seq = s }))
      → ((t : Trace)
          → Succeeds input (claimed (trimmed_key input.idempotency_key) input db) t
          → IsFree (trimmed_key input.idempotency_key) db
          → P (
              committed
                (trimmed_key input.idempotency_key)
                (claimed (trimmed_key input.idempotency_key) input db)
                t))
      → P (checkout host input clock db).1
  checkout_cases P db rolled_back done =
      let out = checkout host input clock db in
      elim (Result-cases out.0) [
        | inl (e, x) ↦
            rw (checkout-rolls_back db out.1 e (ap (λ r. (r, out.1)) x))
              (rolled_back out.1.seq (checkout-seq db))
        | inr (p, x) ↦ elim (checkout-eq-ok db out.1 p (ap (λ r. (r, out.1)) x)).1 [
          | inl (_, _, _, _, _, _, _, same) ↦ rw same (rolled_back db.seq (omega arith))
          | inr (t, s, free, _, same) ↦ rw same (done t s free)
        ]
      ]
