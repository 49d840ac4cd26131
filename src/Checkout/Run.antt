-- ===== src/Checkout/Run.antt =====
-- checkout.ts: the rows that a checkout inserts, and the transaction as a whole.
use course_project.Base.{
  ℕ, suc, ◌==◌, Bool, true, false, ◌&&◌, if◌then◌else◌, Option, none, some, List, [], ◌∷◌, ◌++◌,
  any, update, Result, ok, err,
}
use course_project.Base.Int.{pos}
use course_project.Base.Text.{Text, codes, text_eq}
use course_project.Js.{num, obj, end, field, int, Host}
use course_project.Db.Rows.{Db, Order, OrderItem, IdempotencyKey, paid, status_text}
use course_project.Db.Tx.{Query, throw, ◌>>=◌, ◌>>◌, transaction}
use course_project.Broker.Event.{
  OrderPlacedEvent, order_placed_event, order_placed_type, event_json,
}
use course_project.Checkout.Steps.{
  unique_violation, CheckoutError, bad_lines, crashed, database, CheckoutInput, Clock, PricedLine,
  Placed, Reserved, lines_invalid, trimmed_key, or_empty, replay_of, find_key, reserve_lines, debit,
}

-- Steps on the tables, as queries.
abbrev pub lift : {A : Type 0} → Result CheckoutError A → Query CheckoutError A
lift r db = (r, db)

-- `INSERT INTO idempotency_keys … ON CONFLICT (key) DO NOTHING RETURNING key`: whether a row came
-- back, which is whether the key was free.
unfoldable pub claim_key : Text → Text → Query CheckoutError Bool
claim_key k fingerprint db = elim (find_key k db.idempotency_keys) [
  | some _ ↦ (ok false, db)
  | none ↦ (
    ok true,
    record db {
      idempotency_keys =
          db.idempotency_keys
          ++ (record { key = k; fingerprint = fingerprint; order_id = none }) ∷ [];
    },
  )
]

unfoldable pub reserve : CheckoutInput → Query CheckoutError Reserved
reserve input db =
    elim (reserve_lines input.items (record { lines = []; total = 0; products = db.products })) [
      | err e ↦ (err e, db)
      | ok r ↦ (ok r, record db { products = r.products })
    ]

unfoldable pub pay : ℕ → ℕ → Query CheckoutError (Unit {0})
pay buyer total db = elim (debit buyer total db.users) [
  | err e ↦ (err e, db)
  | ok users ↦ (ok tt, record db { users = users })
]

-- `UNIQUE (order_id, product_id)` on order_items
abbrev pub item_taken : ℕ → ℕ → List OrderItem → Bool
item_taken order_id product_id =
    any (λ (i : OrderItem). i.order_id == order_id && i.product_id == product_id)

-- The cascade of `manager.save(order)` into order_items, one row for each line: the error if a row
-- breaks the unique constraint, the table, and the next id.
unfoldable pub insert_items :
    ℕ → List PricedLine → List OrderItem → ℕ → Result CheckoutError (Unit {0}) × List OrderItem × ℕ
insert_items order_id [] table next = (ok tt, table, next)
insert_items order_id (line ∷ lines) table next =
    let rest =
      insert_items order_id lines
        (table
          ++ (record {
            id = next;
            order_id = order_id;
            product_id = line.product_id;
            quantity = line.quantity;
            unit_price = line.unit_price;
          })
            ∷ [])
        (suc next) in
    if item_taken order_id line.product_id table
    then (err (database unique_violation), table, suc next)
    else rest

abbrev pub order_row : ℕ → ℕ → ℕ → ℕ → Order
order_row id buyer total now = record {
  id = id;
  buyer_id = buyer;
  status = paid;
  total = total;
  created_at = now;
}

-- `manager.save(order)`. The foreign keys hold: the rows that they name were updated just above.
unfoldable pub save_order : ℕ → ℕ → List PricedLine → ℕ → Query CheckoutError ℕ
save_order buyer total lines now db =
    let id = db.seq.order in
    let (r, items, next) = insert_items id lines db.order_items db.seq.order_item in
    let after : Db = record db {
      orders = db.orders ++ order_row id buyer total now ∷ [];
      order_items = items;
      seq = record (db.seq) { order = suc id; order_item = next };
    } in
    elim r [ err e ↦ (err e, after) | ok _ ↦ (ok id, after) ]

-- `manager.save(manager.create(Job, …))`
unfoldable pub save_job : ℕ → Query CheckoutError (Unit {0})
save_job order_id db = (
  ok tt,
  record db {
    jobs =
        db.jobs
        ++ (record {
          id = db.seq.job;
          kind = codes "receipt";
          payload = obj (field (codes "orderId") (num (int (pos order_id))) end);
          processed = 0;
          attempts = 0;
          worker_id = none;
        })
          ∷ [];
    seq = record (db.seq) { job = suc db.seq.job };
  },
)

-- `INSERT INTO outbox (aggregate_type, aggregate_id, type, payload)`
unfoldable pub insert_outbox : ℕ → OrderPlacedEvent → ℕ → Query CheckoutError (Unit {0})
insert_outbox order_id event now db = (
  ok tt,
  record db {
    outbox =
        db.outbox
        ++ (record {
          id = db.seq.outbox;
          aggregate_type = codes "order";
          aggregate_id = order_id;
          type = order_placed_type;
          payload = event_json event;
          created_at = now;
          published_at = none;
          attempts = 0;
        })
          ∷ [];
    seq = record (db.seq) { outbox = suc db.seq.outbox };
  },
)

-- `UPDATE idempotency_keys SET order_id = $2 WHERE key = $1`, if there is a key
unfoldable pub bind_key : Option Text → ℕ → Query CheckoutError (Unit {0})
bind_key none order_id db = (ok tt, db)
bind_key (some k) order_id db = (
  ok tt,
  record db {
    idempotency_keys =
        update (λ (row : IdempotencyKey). text_eq row.key k)
          (λ row. record row { order_id = some order_id }) db.idempotency_keys;
  },
)

module _ (host : Host) where
  -- `saved.createdAt ? saved.createdAt.toISOString() : new Date().toISOString()`
  abbrev pub occurred_at : Clock → Text
  occurred_at clock = elim clock.saved_created_at [
    | some t ↦ host.to_iso t
    | none ↦ host.to_iso clock.process_now
  ]

  -- Everything after the key is claimed.
  unfoldable pub place_order : CheckoutInput → Clock → Option Text → Query CheckoutError Placed
  place_order input clock key = do
    reserved ← reserve input
    pay input.buyer_id reserved.total
    id ← save_order input.buyer_id reserved.total reserved.lines clock.now
    save_job id
    insert_outbox id
        (order_placed_event id input.buyer_id reserved.total (status_text paid) (occurred_at clock))
        clock.now
    bind_key key id
    lift (
        if input.crash_after_outbox
        then err crashed
        else ok (record { order_id = id; created = true }))

  -- The body of `ds.transaction`: `key` is the trimmed key if there is one.
  unfoldable pub checkout_tx : CheckoutInput → Clock → Option Text → Query CheckoutError Placed
  checkout_tx input clock none = place_order input clock none
  checkout_tx input clock (some k) = do
    free ← claim_key k (or_empty input.fingerprint)
    if free
        then place_order input clock (some k)
        else (λ db. (replay_of (or_empty input.fingerprint) (find_key k db.idempotency_keys), db))

  unfoldable pub checkout : CheckoutInput → Clock → Query CheckoutError Placed
  unfolding transaction
  checkout input clock =
      if lines_invalid input.items
      then throw bad_lines
      else transaction (checkout_tx input clock (trimmed_key input.idempotency_key))
