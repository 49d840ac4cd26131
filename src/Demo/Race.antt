-- ===== src/Demo/Race.antt =====
-- demo-race.ts: fifty checkouts at once for ten pieces of a product.
pub mod Rows
pub mod Setup
pub mod Sold
pub mod Main
use course_project.Base.{
  ℕ, ltb, ◌==◌, Bool, true, false, ◌&&◌, Option, none, some, List, [], ◌∷◌, ◌++◌, find, filter,
  update, length, Result, ok, err,
}
use course_project.Base.Text.{Text, codes, text_eq}
use course_project.Checkout.Run.{checkout}
use course_project.Checkout.Steps.{CheckoutInput, CheckoutError, rejected, Placed, Rejection, Clock}
use course_project.Db.Rows.{Db, User, Product}
use course_project.Js.{Host}

abbrev pub attempts_at_once : ℕ
attempts_at_once = 50

abbrev pub race_stock : ℕ
race_stock = 10

abbrev pub race_balance : ℕ
race_balance = 100000000

abbrev pub race_email : Text
race_email = codes "buyer-kateryna@example.com"

abbrev pub race_seller_email : Text
race_seller_email = codes "seller-anna@example.com"

abbrev pub race_product : Text
race_product = codes "Race widget"

-- `findOneByOrFail` finds none, a checkout throws what is no `CheckoutRejected`, or the product has
-- no row in the end.
pub data RaceError : Type 0 where
  not_found unexpected no_row : RaceError

-- What a call ends with: 'ok', or the code of its rejection
pub data RaceCode : Type 0 where
  placed_one : RaceCode
  refused : Rejection → RaceCode

abbrev pub is_placed : RaceCode → Bool
is_placed placed_one = true
is_placed (refused r) = false

pub record RaceRows : Type 0 where
  pub succeeded : ℕ
  pub final_stock : ℕ
  pub negatives : ℕ

unfoldable pub race_ok : RaceRows → Bool
race_ok rows = rows.succeeded == race_stock && rows.final_stock == 0 && rows.negatives == 0

abbrev pub race_input : ℕ → ℕ → CheckoutInput
race_input buyer_id product_id = record {
  buyer_id = buyer_id;
  items = (record { product_id = product_id; quantity = 1 }) ∷ [];
  idempotency_key = none;
  fingerprint = none;
  crash_after_outbox = false;
}

abbrev pub code_of : Result CheckoutError Placed → Result RaceError RaceCode
code_of (ok _) = ok placed_one
code_of (err (rejected r)) = ok (refused r)
code_of (err _) = err unexpected

-- `Promise.all`: the first of the codes that is none is the error.
abbrev pub cons_code :
    Result RaceError RaceCode → Result RaceError (List RaceCode) → Result RaceError (List RaceCode)
cons_code (err e) rest = err e
cons_code (ok c) (err e) = err e
cons_code (ok c) (ok cs) = ok (c ∷ cs)

-- `buyer.balanceCents = 100_000_000`, saved
abbrev pub fund : ℕ → List User → List User
fund id = update (λ (u : User). u.id == id) (λ u. record u { balance_cents = race_balance })

abbrev pub race_row : ℕ → ℕ → Product
race_row id seller_id = record {
  id = id;
  seller_id = seller_id;
  name = race_product;
  description = codes "Fixture for the 50-way checkout race.";
  price = 100;
  stock = race_stock;
}

-- The product is new, or gets its stock back.
abbrev pub insert_race : ℕ → Option User → List Product → Result RaceError (ℕ × List Product)
insert_race next none products = err not_found
insert_race next (some seller) products = ok (next, products ++ race_row next seller.id ∷ [])

abbrev pub restock :
    ℕ → Option User → List Product → Option Product → Result RaceError (ℕ × List Product)
restock next seller products none = insert_race next seller products
restock next seller products (some p) =
    ok
      (p.id, update (λ (q : Product). q.id == p.id) (λ q. record q { stock = race_stock }) products)

abbrev pub stock_left : Option Product → Result RaceError ℕ
stock_left none = err no_row
stock_left (some p) = ok p.stock

abbrev pub count_negative : List Product → ℕ
count_negative products = length (filter (λ (p : Product). ltb p.stock 0) products)

abbrev pub race_rows : List RaceCode → List Product → Result RaceError ℕ → Result RaceError RaceRows
race_rows codes products (err e) = err e
race_rows codes products (ok stock) = ok (record {
  succeeded = length (filter is_placed codes);
  final_stock = stock;
  negatives = count_negative products;
})

abbrev pub on_codes : ℕ → Result RaceError (List RaceCode) × Db → Result RaceError RaceRows
on_codes product_id (err e, db) = err e
on_codes product_id (ok codes, db) =
    race_rows codes db.products
      (stock_left (find (λ (p : Product). p.id == product_id) db.products))

module _ (host : Host) where
  -- One transaction after another, in the order in which the row locks let them through. Each call
  -- has its clock.
  unfoldable pub race : CheckoutInput → List Clock → Db → Result RaceError (List RaceCode) × Db
  race input [] db = (ok [], db)
  race input (clock ∷ clocks) db =
      let (r, after) = checkout host input clock db in
      let (rs, final) = race input clocks after in (cons_code (code_of r) rs, final)

  abbrev pub with_product :
      ℕ → List Clock → Db → Result RaceError (ℕ × List Product) → Result RaceError RaceRows
  with_product buyer_id clocks db (err e) = err e
  with_product buyer_id clocks db (ok (product_id, products)) =
      on_codes product_id
        (race (race_input buyer_id product_id) clocks (record db { products = products }))

  abbrev pub with_buyer : ℕ → List Clock → Db → Option User → Result RaceError RaceRows
  with_buyer next clocks db none = err not_found
  with_buyer next clocks db (some buyer) =
      let users = fund buyer.id db.users in
      with_product buyer.id clocks (record db { users = users })
        (restock next (find (λ (u : User). text_eq u.email race_seller_email) users) db.products
          (find (λ (p : Product). text_eq p.name race_product) db.products))

  -- `main`; `next` is the id of a new product, and there is a clock for each of the attempts.
  unfoldable pub demo_race : ℕ → List Clock → Db → Result RaceError RaceRows
  unfolding race
  demo_race next clocks db =
      with_buyer next clocks db (find (λ (u : User). text_eq u.email race_email) db.users)
