-- ===== src/Demo.antt =====
-- outbox/demo-support.ts: the fixture of the outbox demo, its removal, and its counts.
pub mod Flow
pub mod Place
pub mod Posts
pub mod Sent
pub mod Counts
pub mod Cleaned
pub mod Prepared
pub mod Crash
pub mod Resent
pub mod Lost
pub mod Crashes
pub mod Duplicate
pub mod Race
pub mod Publish
pub mod Dlq
use course_project.Base.{
  ℕ, ◌==◌, Bool, true, false, not, ◌&&◌, Option, none, some, List, [], ◌∷◌, ◌++◌, filter, find,
  update, length, if◌then◌else◌,
}
use course_project.Base.Text.{Text, codes, text_eq, decimal}
use course_project.Broker.Effects.{order_placed_consumer, count_effects, count_deliveries}
use course_project.Broker.Event.{event_id_of}
use course_project.Db.Rows.{
  Db, User, buyer, seller, Product, Order, OrderItem, Job, OutboxRow, IdempotencyKey,
  ProcessedMessage, OrderPlacedEffect, OrderPlacedDelivery, OrderStatusRow,
}
use course_project.Js.{Json, obj, get_field}

abbrev pub seller_email : Text
seller_email = codes "outbox-demo-seller@example.com"

abbrev pub buyer_email : Text
buyer_email = codes "outbox-demo-buyer@example.com"

abbrev pub product_name : Text
product_name = codes "Outbox demo widget"

pub record Fixture : Type 0 where
  pub buyer_id : ℕ
  pub product_id : ℕ

-- The next values of the identity columns, for the rows that `prepareDemo` may insert.
pub record NextIds : Type 0 where
  pub seller : ℕ
  pub buyer : ℕ
  pub product : ℕ

-- `SELECT order_id FROM idempotency_keys WHERE key = $1 AND order_id IS NOT NULL`
abbrev pub owned_of : Option ℕ → List ℕ → List ℕ
owned_of none ids = ids
owned_of (some id) ids = id ∷ ids

unfoldable pub owned : Text → List IdempotencyKey → List ℕ
owned key [] = []
owned key (row ∷ rows) =
    let rest = owned key rows in if text_eq row.key key then owned_of row.order_id rest else rest

pub record Measured : Type 0 where
  pub orders : ℕ
  pub outbox : ℕ
  pub deliveries : ℕ
  pub effect : ℕ
  pub processed : ℕ

abbrev pub count_outbox : ℕ → List OutboxRow → ℕ
count_outbox id rows = length (filter (λ (r : OutboxRow). r.aggregate_id == id) rows)

abbrev pub count_processed : Text → List ProcessedMessage → ℕ
count_processed id rows = length (
    filter
      (λ (m : ProcessedMessage).
        text_eq m.message_id id && text_eq m.consumer order_placed_consumer)
      rows)

abbrev pub measure_owned : List ℕ → Db → Measured
measure_owned [] db = record { orders = 0; outbox = 0; deliveries = 0; effect = 0; processed = 0 }
measure_owned (id ∷ ids) db = record {
  orders = length (id ∷ ids);
  outbox = count_outbox id db.outbox;
  deliveries = count_deliveries (event_id_of id) db;
  effect = count_effects (event_id_of id) db;
  processed = count_processed (event_id_of id) db.processed_messages;
}

unfoldable pub measure : Text → Db → Measured
measure key db = measure_owned (owned key db.idempotency_keys) db

-- `ON CONFLICT (email) DO UPDATE`, by the row that has the email
abbrev pub seller_of : ℕ → List User → Option User → ℕ × List User
seller_of next users (some u) = (u.id, users)
seller_of next users none = (
  next,
  users ++ (record { id = next; email = seller_email; role = seller; balance_cents = 0 }) ∷ [],
)

abbrev pub upsert_seller : ℕ → List User → ℕ × List User
upsert_seller next users =
    seller_of next users (find (λ (u : User). text_eq u.email seller_email) users)

abbrev pub demo_balance : ℕ
demo_balance = 100000000

abbrev pub buyer_of : ℕ → List User → Option User → ℕ × List User
buyer_of next users (some u) = (
  u.id,
  update (λ (v : User). text_eq v.email buyer_email)
      (λ v. record v { balance_cents = demo_balance }) users,
)
buyer_of next users none = (
  next,
  users
      ++ (record { id = next; email = buyer_email; role = buyer; balance_cents = demo_balance })
        ∷ [],
)

abbrev pub upsert_buyer : ℕ → List User → ℕ × List User
upsert_buyer next users =
    buyer_of next users (find (λ (u : User). text_eq u.email buyer_email) users)

-- The product of the seller, with 100 in stock at 100 cents
abbrev pub product_of : ℕ → ℕ → List Product → Option Product → ℕ × List Product
product_of next seller_id products (some p) = (
  p.id,
  update (λ (q : Product). q.id == p.id) (λ q. record q { stock = 100; price = 100 }) products,
)
product_of next seller_id products none = (
  next,
  products
      ++ (record {
        id = next;
        seller_id = seller_id;
        name = product_name;
        description = [];
        price = 100;
        stock = 100;
      })
        ∷ [],
)

abbrev pub stock_product : ℕ → ℕ → List Product → ℕ × List Product
stock_product next seller_id products =
    product_of next seller_id products
      (find (λ (p : Product). p.seller_id == seller_id && text_eq p.name product_name) products)

-- `as_text` is the text that `->>` gives of a value.
module _ (as_text : Json → Text) where
  -- `payload->>'orderId' = $1`
  abbrev pub is_job_of : ℕ → Job → Bool
  is_job_of id j = elim j.payload [
    | obj fields ↦ elim (get_field (codes "orderId") fields) [
      | some v ↦ text_eq (as_text v) (decimal id)
      | none ↦ false
    ]
    | _ ↦ false
  ]

  -- The deletes of one order. Its status events go with it, by the cascade of their foreign key.
  unfoldable pub delete_order : ℕ → Db → Db
  delete_order id db = record db {
    order_placed_deliveries =
        filter (λ (d : OrderPlacedDelivery). not (text_eq d.event_id (event_id_of id)))
          db.order_placed_deliveries;
    order_placed_effects =
        filter (λ (e : OrderPlacedEffect). not (text_eq e.event_id (event_id_of id)))
          db.order_placed_effects;
    processed_messages =
        filter (λ (m : ProcessedMessage). not (text_eq m.message_id (event_id_of id)))
          db.processed_messages;
    outbox = filter (λ (r : OutboxRow). not (r.aggregate_id == id)) db.outbox;
    order_items = filter (λ (i : OrderItem). not (i.order_id == id)) db.order_items;
    jobs = filter (λ (j : Job). not (is_job_of id j)) db.jobs;
    orders = filter (λ (o : Order). not (o.id == id)) db.orders;
    order_status_events =
        filter (λ (e : OrderStatusRow). not (e.order_id == id)) db.order_status_events;
  }

  unfoldable pub delete_orders : List ℕ → Db → Db
  delete_orders [] db = db
  delete_orders (id ∷ ids) db = delete_orders ids (delete_order id db)

  unfoldable pub cleanup : Text → Db → Db
  cleanup key db =
      let cleaned = delete_orders (owned key db.idempotency_keys) db in
      record cleaned {
        idempotency_keys =
            filter (λ (row : IdempotencyKey). not (text_eq row.key key)) cleaned.idempotency_keys;
      }

  -- The tables exist already, and the broker's queues are emptied.
  unfoldable pub prepare_demo : Text → NextIds → Db → Fixture × Db
  prepare_demo key next db =
      let cleaned = cleanup key db in
      let (seller_id, with_seller) = upsert_seller next.seller cleaned.users in
      let (buyer_id, with_buyer) = upsert_buyer next.buyer with_seller in
      let (product_id, products) = stock_product next.product seller_id cleaned.products in
      (
        record { buyer_id = buyer_id; product_id = product_id },
        record cleaned { users = with_buyer; products = products },
      )
