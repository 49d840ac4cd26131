-- ===== src/Checkout/Conservation.antt =====
-- What every history of checkouts conserves. Transactions are steps one after another: two that
-- want the same stock or balance wait for each other at the row lock of the `UPDATE`.
use course_project.Base.{
  ℕ, ◌+◌, ◌≡◌, refl, ◌==◌, if◌then◌else◌, Option, none, some, List, [], ◌∷◌, ◌∙◌, arith,
}
use course_project.Base.Text.{Text}
use course_project.Base.Tables.{sum_by, sum_by-snoc}
use course_project.Js.{Host}
use course_project.Db.Rows.{Db, Order}
use course_project.Checkout.Steps.{CheckoutInput, Clock, trimmed_key}
use course_project.Checkout.Run.{checkout, order_row}
use course_project.Checkout.Outcome.{no_lines, claimed, Trace, Succeeds, committed, checkout_cases}
use course_project.Checkout.Measures.{stock_of, sold, balance_of, spent}
use course_project.Checkout.StepLaws.{
  ProductKeys, UserKeys, reserve_lines-Reserves, debit-balance, insert_items-sold,
}

module _ (host : Host) where
  -- A history of checkouts, each with its clocks; a call that throws leaves its rollback behind.
  unfoldable pub run : List (CheckoutInput × Clock) → Db → Db
  run [] db = db
  run ((input, clock) ∷ calls) db = run calls (checkout host input clock db).1

-- Primary keys of the two tables that a checkout updates.
pub record HasKeys (db : Db) : Type 0 where
  pub products : ProductKeys db.products
  pub users : UserKeys db.users

claimed-HasKeys :
    (key : Option Text) (input : CheckoutInput) (db : Db)
    → HasKeys db
    → HasKeys (claimed key input db)
claimed-HasKeys none input db k = k
claimed-HasKeys (some t) input db k = record { products = k.products; users = k.users }

-- The stock of a product and its sold units together.
abbrev pub stock_and_sold : ℕ → Db → ℕ
stock_and_sold p db = stock_of p db.products + sold p db.order_items

abbrev pub balance_and_spent : ℕ → Db → ℕ
balance_and_spent b db = balance_of b db.users + spent b db.orders

pub record Conserves (p b : ℕ) (db db' : Db) : Type 0 where
  pub keys : HasKeys db'
  pub goods : stock_and_sold p db' ≡ stock_and_sold p db
  pub money : balance_and_spent b db' ≡ balance_and_spent b db

module _ (host : Host) (input : CheckoutInput) (clock : Clock) where
  pub committed-Conserves :
      (p b : ℕ) (key : Option Text) (db : Db) (t : Trace)
      → HasKeys db
      → Succeeds input db t
      → Conserves p b db (committed host input clock key db t)
  unfolding sum_by
  committed-Conserves p b key db t k s =
      let taken =
        reserve_lines-Reserves p input.items (no_lines db) t.reserved k.products s.reserves in
      let (users, debited, _) =
        debit-balance b input.buyer_id t.reserved.total db.users t.users k.users s.pays in
      let (moved, _) =
        insert_items-sold p 0 db.seq.order t.reserved.lines db.order_items t.items db.seq.order_item
          t.next_item s.inserts in
      record {
        keys = record { products = taken.keys; users = users };
        goods = ground (arith, taken.stock, moved);
        money = ground (
          arith,
          debited,
          sum_by-snoc (λ (o : Order). if o.buyer_id == b then o.total else 0) db.orders
              (order_row db.seq.order input.buyer_id t.reserved.total clock.now),
        );
      }

  -- The same from the database that has the key claimed.
  claim_committed-Conserves :
      (p b : ℕ) (key : Option Text) (db : Db) (t : Trace)
      → HasKeys db
      → Succeeds input (claimed key input db) t
      → Conserves p b db (committed host input clock key (claimed key input db) t)
  claim_committed-Conserves p b none db t k s = committed-Conserves p b none db t k s
  claim_committed-Conserves p b (some key) db t k s =
      let c =
        committed-Conserves p b (some key) (claimed (some key) input db) t
          (claimed-HasKeys (some key) input db k) s in
      record { keys = c.keys; goods = c.goods; money = c.money }

  -- However a checkout ends, units move from stock to sold and cents from balance to spent, and
  -- none are lost.
  pub checkout-Conserves :
      (p b : ℕ) (db : Db) → HasKeys db → Conserves p b db (checkout host input clock db).1
  checkout-Conserves p b db k =
      checkout_cases host input clock (Conserves p b db) db
        (λ s _. record {
          keys = record { products = k.products; users = k.users };
          goods = refl;
          money = refl;
        })
        (λ t s _. claim_committed-Conserves p b (trimmed_key input.idempotency_key) db t k s)

-- If products and users have distinct ids, then whatever checkouts run, and whichever of them throw,
-- the ids stay distinct, the stock of every product and its units on order lines add up to what they
-- were, and so do the balance of every user and the totals of that user's orders.
pub run-Conserves :
    (host : Host) (p b : ℕ) (calls : List (CheckoutInput × Clock)) (db : Db)
    → HasKeys db
    → Conserves p b db (run host calls db)
unfolding run
run-Conserves host p b [] db k = record { keys = k; goods = refl; money = refl }
run-Conserves host p b ((input, clock) ∷ calls) db k =
    let c = checkout-Conserves host input clock p b db k in
    let d = run-Conserves host p b calls (checkout host input clock db).1 c.keys in
    record { keys = d.keys; goods = d.goods ∙ c.goods; money = d.money ∙ c.money }
