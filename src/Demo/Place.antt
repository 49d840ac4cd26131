-- ===== src/Demo/Place.antt =====
-- checkout.ts: when an order is placed, and what it leaves behind.
use course_project.Base.{
  Bool-cases, ==_iff, update, ◌-◌, ℕ, suc, ◌≤◌, ◌<◌, ◌≡◌, refl, ◌==◌, true, false, Option, none,
  some, List, [], ◌∷◌, ◌++◌, find, any, ok, err, arith, All, All-imp, inl, inr,
}
use course_project.Base.Text.{Text}
use course_project.Checkout.Outcome.{claimed, Trace, Succeeds, committed}
use course_project.Checkout.Run.{
  reserve, pay, save_order, save_job, insert_outbox, bind_key, claim_key, place_order, checkout_tx,
  checkout, item_taken, insert_items,
}
use course_project.Checkout.Steps.{
  CheckoutInput, CheckoutLine, crashed, Clock, lines_invalid, trimmed_key, find_key, reserve_line,
  reserve_lines, debit, reservable, payable,
}
use course_project.Db.Rows.{Db, Product, OrderItem, int4_max}
use course_project.Db.Tx.{transaction}
use course_project.Js.{Host}

module _ (host : Host) (input : CheckoutInput) (clock : Clock) where
  pub place_order-ok :
      (key : Option Text) (db : Db) (t : Trace)
      → input.crash_after_outbox ≡ false
      → Succeeds input db t
      → place_order host input clock key db ≡ (
        ok (record { order_id = db.seq.order; created = true }),
        committed host input clock key db t,
      )
  unfolding place_order reserve pay save_order save_job insert_outbox bind_key
  place_order-ok none db t whole s = ground (arith, whole, s.reserves, s.pays, s.inserts)
  place_order-ok (some k) db t whole s = ground (arith, whole, s.reserves, s.pays, s.inserts)

  -- With a key that is free, and steps that succeed, a checkout commits.
  pub checkout-ok :
      (k : Text) (db : Db) (t : Trace)
      → input.crash_after_outbox ≡ false
      → lines_invalid input.items ≡ false
      → trimmed_key input.idempotency_key ≡ some k
      → find_key k db.idempotency_keys ≡ none
      → Succeeds input (claimed (some k) input db) t
      → checkout host input clock db ≡ (
        ok (record { order_id = db.seq.order; created = true }),
        committed host input clock (some k) (claimed (some k) input db) t,
      )
  unfolding checkout checkout_tx claim_key transaction
  checkout-ok k db t whole valid key free s =
      ground
        (arith, valid, key, free, place_order-ok (some k) (claimed (some k) input db) t whole s)

  -- A crash behind the outbox throws the order away.
  place_order-crashed :
      (key : Option Text) (db : Db) (t : Trace)
      → input.crash_after_outbox ≡ true
      → Succeeds input db t
      → place_order host input clock key db ≡ (err crashed, committed host input clock key db t)
  unfolding place_order reserve pay save_order save_job insert_outbox bind_key
  place_order-crashed none db t crash s = ground (arith, crash, s.reserves, s.pays, s.inserts)
  place_order-crashed (some k) db t crash s = ground (arith, crash, s.reserves, s.pays, s.inserts)

  pub checkout-crashed :
      (k : Text) (db : Db) (t : Trace)
      → input.crash_after_outbox ≡ true
      → lines_invalid input.items ≡ false
      → trimmed_key input.idempotency_key ≡ some k
      → find_key k db.idempotency_keys ≡ none
      → Succeeds input (claimed (some k) input db) t
      → checkout host input clock db ≡ (
        err crashed,
        record db { seq = (committed host input clock (some k) (claimed (some k) input db) t).seq },
      )
  unfolding checkout checkout_tx claim_key transaction
  checkout-crashed k db t crash valid key free s =
      ground (
        arith,
        valid,
        key,
        free,
        place_order-crashed (some k) (claimed (some k) input db) t crash s,
      )

-- The product is on sale, at 100 cents and with 100 in stock.
abbrev pub IsStocked : ℕ → List Product → Type 0
IsStocked id products =
    (any (λ (p : Product). p.id == id) products ≡ true)
    × All (λ (p : Product). p.id ≡ id → (p.price ≡ 100) × (p.stock ≡ 100)) products

abbrev pub one_of : ℕ → CheckoutLine
one_of id = record { product_id = id; quantity = 1 }

-- The product is on sale at this price, and there is at least one.
abbrev pub IsOffered : ℕ → ℕ → List Product → Type 0
IsOffered id price products =
    (any (λ (p : Product). p.id == id) products ≡ true)
    × All (λ (p : Product). p.id ≡ id → (p.price ≡ price) × (1 ≤ p.stock)) products

pub stocked-IsOffered :
    (id : ℕ) (products : List Product) → IsStocked id products → IsOffered id 100 products
stocked-IsOffered id products (there, stocked) = (
  there,
  All-imp (λ (p : Product). p.id ≡ id → (p.price ≡ 100) × (p.stock ≡ 100))
      (λ (p : Product). p.id ≡ id → (p.price ≡ 100) × (1 ≤ p.stock)) products
      (λ p h e. ((h e).0, omega (arith, (h e).1))) stocked,
)

find-reservable :
    (id price : ℕ) (products : List Product)
    → IsOffered id price products
    → (p : Product) × (find (reservable (one_of id)) products ≡ some p) × (p.price ≡ price)
find-reservable id price [] (h, offered) = absurd (ground (arith, h))
find-reservable id price (p ∷ products) (h, offered) = elim (Bool-cases (p.id == id)) [
  | inl same ↦
      let (cost, stock) = offered.0 ((==_iff p.id id).0 same) in
      (p, ground (arith, same, cost, stock), cost)
  | inr other ↦
      let (q, found, cost) =
        find-reservable id price products (ground (arith, h, other), offered.1) in
      (q, ground (arith, other, found), cost)
]

not_taken :
    (o p : ℕ) (table : List OrderItem)
    → All (λ (i : OrderItem). i.order_id < o) table
    → item_taken o p table ≡ false
not_taken o p [] fresh = refl
not_taken o p (i ∷ table) fresh = ground (arith, fresh.0, not_taken o p table fresh.1)

-- What an order of one piece of a product changes.
abbrev pub one_line_trace : ℕ → ℕ → ℕ → Db → Trace
one_line_trace buyer_id product_id price db = record {
  reserved = record {
    lines = (record { product_id = product_id; quantity = 1; unit_price = price }) ∷ [];
    total = price;
    products =
        update (reservable (one_of product_id)) (λ q. record q { stock = q.stock - 1 }) db.products;
  };
  users =
      update (payable buyer_id price) (λ u. record u { balance_cents = u.balance_cents - price })
        db.users;
  items =
      db.order_items
      ++ (record {
        id = db.seq.order_item;
        order_id = db.seq.order;
        product_id = product_id;
        quantity = 1;
        unit_price = price;
      })
        ∷ [];
  next_item = suc db.seq.order_item;
}

-- An order of one piece of a product on sale, by a buyer who can pay it, succeeds.
pub one_line-Succeeds :
    (input : CheckoutInput) (product_id price : ℕ) (db : Db)
    → input.items ≡ one_of product_id ∷ []
    → IsOffered product_id price db.products
    → any (payable input.buyer_id price) db.users ≡ true
    → price ≤ int4_max
    → All (λ (i : OrderItem). i.order_id < db.seq.order) db.order_items
    → Succeeds input db (one_line_trace input.buyer_id product_id price db)
unfolding reserve_lines reserve_line debit insert_items
one_line-Succeeds input product_id price db one offered rich small fresh =
    let (p, found, cost) = find-reservable product_id price db.products offered in
    record {
      reserves = ground (arith, one, found, cost);
      pays = ground (arith, rich, small);
      inserts = ground (arith, not_taken db.seq.order product_id db.order_items fresh);
    }
