-- ===== src/Checkout/Steps.antt =====
-- checkout.ts: the types, the idempotency row, the stock and balance updates.
use course_project.Base.{
  ℕ, ◌+◌, ◌-◌, ◌*◌, leb, ltb, ◌==◌, Bool, true, false, ◌&&◌, if◌then◌else◌, Option, none, some,
  List, [], ◌∷◌, ◌++◌, find, any, update, Result, ok, err,
}
use course_project.Base.Text.{Text, text_eq, trim, truthy}
use course_project.Db.Rows.{User, Product, IdempotencyKey, int4_max}

-- `CheckoutRejected.code`
pub data Rejection : Type 0 where
  out_of_stock insufficient_funds unknown_product : Rejection

-- Errors of the database that abort the transaction, by their SQLSTATE: 23505 and 22003.
pub data PgError : Type 0 where
  unique_violation numeric_value_out_of_range : PgError

pub data CheckoutError : Type 0 where
  bad_lines idempotency_reuse in_flight crashed : CheckoutError
  rejected : Rejection → CheckoutError
  database : PgError → CheckoutError

pub record CheckoutLine : Type 0 where
  pub product_id : ℕ
  pub quantity : ℕ

pub record CheckoutInput : Type 0 where
  pub buyer_id : ℕ
  pub items : List CheckoutLine
  pub idempotency_key : Option Text
  pub fingerprint : Option Text
  pub crash_after_outbox : Bool

-- What the clocks and the ORM report: `now()` of the transaction, `new Date()` in the process, and
-- `saved.createdAt` after the insert.
pub record Clock : Type 0 where
  pub now : ℕ
  pub process_now : ℕ
  pub saved_created_at : Option ℕ

pub record PricedLine : Type 0 where
  pub product_id : ℕ
  pub quantity : ℕ
  pub unit_price : ℕ

pub record Placed : Type 0 where
  pub order_id : ℕ
  pub created : Bool

-- `items.length < 1 || items.some((item) => item.quantity < 1)`
abbrev pub lines_invalid : List CheckoutLine → Bool
lines_invalid [] = true
lines_invalid (x ∷ xs) = any (λ (item : CheckoutLine). ltb item.quantity 1) (x ∷ xs)

-- `input.idempotencyKey?.trim()`, if it is truthy
abbrev pub trimmed_key : Option Text → Option Text
trimmed_key none = none
trimmed_key (some k) = if truthy (trim k) then some (trim k) else none

abbrev pub or_empty : Option Text → Text
or_empty none = []
or_empty (some t) = t

-- The key was taken already: `SELECT order_id, fingerprint FROM idempotency_keys WHERE key = $1`.
abbrev pub replay_of : Text → Option IdempotencyKey → Result CheckoutError Placed
replay_of fingerprint none = err idempotency_reuse
replay_of fingerprint (some row) =
    if text_eq row.fingerprint fingerprint
    then (elim row.order_id [
      | none ↦ err in_flight
      | some id ↦ ok (record { order_id = id; created = false })
    ])
    else err idempotency_reuse

abbrev pub find_key : Text → List IdempotencyKey → Option IdempotencyKey
find_key k = find (λ (row : IdempotencyKey). text_eq row.key k)

-- `UPDATE products SET stock = stock - $1 WHERE id = $2 AND stock >= $1 RETURNING id, price`
abbrev pub reservable : CheckoutLine → Product → Bool
reservable item p = p.id == item.product_id && leb item.quantity p.stock

abbrev pub priced : CheckoutLine → Product → PricedLine
priced item p = record {
  product_id = item.product_id;
  quantity = item.quantity;
  unit_price = p.price;
}

unfoldable pub reserve_line :
    CheckoutLine → List Product → Result CheckoutError (PricedLine × List Product)
reserve_line item products =
    if ltb int4_max item.quantity
    then err (database numeric_value_out_of_range)
    else (elim (find (reservable item) products) [
      | some p ↦ ok (
        priced item p,
        update (reservable item) (λ q. record q { stock = q.stock - item.quantity }) products,
      )
      | none ↦ err (
          rejected (
            if any (λ (p : Product). p.id == item.product_id) products
            then out_of_stock
            else unknown_product))
    ])

-- The loop over `input.items`, with `lines` and `total` as they grow.
pub record Reserved : Type 0 where
  pub lines : List PricedLine
  pub total : ℕ
  pub products : List Product

unfoldable pub reserve_lines : List CheckoutLine → Reserved → Result CheckoutError Reserved
reserve_lines [] acc = ok acc
reserve_lines (item ∷ items) acc = elim (reserve_line item acc.products) [
  | err e ↦ err e
  | ok (line, products) ↦ reserve_lines items (record {
    lines = acc.lines ++ line ∷ [];
    total = acc.total + line.unit_price * line.quantity;
    products = products;
  })
]

-- `UPDATE users SET balance_cents = balance_cents - $1 WHERE id = $2 AND balance_cents >= $1`
abbrev pub payable : ℕ → ℕ → User → Bool
payable buyer total u = u.id == buyer && leb total u.balance_cents

unfoldable pub debit : ℕ → ℕ → List User → Result CheckoutError (List User)
debit buyer total users =
    if ltb int4_max total
    then err (database numeric_value_out_of_range)
    else if any (payable buyer total) users
    then ok (
        update (payable buyer total) (λ u. record u { balance_cents = u.balance_cents - total })
          users)
    else err (rejected insufficient_funds)
