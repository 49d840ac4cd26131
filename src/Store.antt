-- ===== src/Store.antt =====
-- store/store.service.ts: a store in memory. Its stock is a JavaScript number, which may fall below 0.
pub mod Sale
use course_project.Base.{
  ℕ, suc, ◌+◌, ◌-◌, ◌*◌, leb, ltb, ◌==◌, Bool, true, false, if◌then◌else◌, Option, none, some, List,
  [], ◌∷◌, ◌++◌, find, map, Result, ok, err,
}
use course_project.Base.Int.{ℤ, pos, negsuc}
use course_project.Base.Text.{Text, codes}
use course_project.Db.Rows.{OrderStatus}
use course_project.Checkout.Steps.{CheckoutLine}

abbrev pub minus : ℤ → ℕ → ℤ
minus (pos m) n = if leb n m then pos (m - n) else negsuc (n - m - 1)
minus (negsuc m) n = negsuc (m + n)

abbrev pub is_below : ℤ → ℕ → Bool
is_below (pos m) n = ltb m n
is_below (negsuc m) n = true

pub record StoreProduct : Type 0 where
  pub id : ℕ
  pub title : Text
  pub price_cents : ℕ
  pub stock : ℤ
  pub image_url : Option Text

pub record StoreItem : Type 0 where
  pub product_id : ℕ
  pub quantity : ℕ
  pub unit_price_cents : ℕ

pub record StoreOrder : Type 0 where
  pub id : ℕ
  pub buyer_id : ℕ
  pub items : List StoreItem
  pub total_cents : ℕ
  pub status : OrderStatus
  pub created_at : Text

pub record StoreService : Type 0 where
  pub products : List StoreProduct
  pub orders : List StoreOrder
  pub next_order_id : ℕ

-- `NotFoundException` of a product or an order, and the two of `createOrder`
pub data StoreError : Type 0 where
  no_product no_order unknown_product insufficient_stock : ℕ → StoreError

abbrev pub has_id : ℕ → StoreProduct → Bool
has_id id p = p.id == id

unfoldable pub get_product : ℕ → StoreService → Result StoreError StoreProduct
get_product id s = elim (find (has_id id) s.products) [ none ↦ err (no_product id) | some p ↦ ok p ]

unfoldable pub get_order : ℕ → StoreService → Result StoreError StoreOrder
get_order id s = elim (find (λ (o : StoreOrder). o.id == id) s.orders) [
  | none ↦ err (no_order id)
  | some o ↦ ok o
]

-- A line refers to a product of the array, which is found by its id again.
pub record StoreLine : Type 0 where
  pub product : StoreProduct
  pub quantity : ℕ

abbrev pub line_of : CheckoutLine → Option StoreProduct → Result StoreError StoreLine
line_of item none = err (unknown_product item.product_id)
line_of item (some p) =
    if is_below p.stock item.quantity
    then err (insufficient_stock p.id)
    else ok (record { product = p; quantity = item.quantity })

abbrev pub cons_line :
    Result StoreError StoreLine
    → Result StoreError (List StoreLine)
    → Result StoreError (List StoreLine)
cons_line (err e) rest = err e
cons_line (ok line) (err e) = err e
cons_line (ok line) (ok lines) = ok (line ∷ lines)

-- The loop over `items`, which reads the stock and does not change it.
unfoldable pub lines_of : List StoreProduct → List CheckoutLine → Result StoreError (List StoreLine)
lines_of products [] = ok []
lines_of products (item ∷ items) =
    cons_line (line_of item (find (has_id item.product_id) products)) (lines_of products items)

-- `line.product.stock -= line.quantity`
abbrev pub take_from : ℕ → ℕ → List StoreProduct → List StoreProduct
take_from id n [] = []
take_from id n (p ∷ products) =
    if p.id == id
    then record p { stock = minus p.stock n } ∷ products
    else p ∷ take_from id n products

unfoldable pub take_stock : List StoreLine → List StoreProduct → List StoreProduct
take_stock [] products = products
take_stock (line ∷ lines) products =
    take_stock lines (take_from line.product.id line.quantity products)

abbrev pub item_of : StoreLine → StoreItem
item_of line = record {
  product_id = line.product.id;
  quantity = line.quantity;
  unit_price_cents = line.product.price_cents;
}

abbrev pub total_from : ℕ → List StoreItem → ℕ
total_from sum [] = sum
total_from sum (i ∷ items) = total_from (sum + i.unit_price_cents * i.quantity) items

abbrev pub order_of : Text → ℕ → List StoreItem → StoreOrder
order_of now id items = record {
  id = id;
  buyer_id = 1;
  items = items;
  total_cents = total_from 0 items;
  status = OrderStatus.new;
  created_at = now;
}

abbrev pub placed :
    Text
    → StoreService
    → Result StoreError (List StoreLine)
    → Result StoreError StoreOrder × StoreService
placed now s (err e) = (err e, s)
placed now s (ok lines) =
    let order = order_of now s.next_order_id (map item_of lines) in
    (
      ok order,
      record {
        products = take_stock lines s.products;
        orders = s.orders ++ order ∷ [];
        next_order_id = suc s.next_order_id;
      },
    )

-- `now` is `new Date().toISOString()`.
unfoldable pub create_order :
    Text → List CheckoutLine → StoreService → Result StoreError StoreOrder × StoreService
unfolding lines_of take_stock
create_order now items s = placed now s (lines_of s.products items)

abbrev pub initial_store : StoreService
initial_store = record {
  products =
      (record {
        id = 1;
        title = codes "Keyboard";
        price_cents = 260000;
        stock = pos 10;
        image_url = some (codes "https://cdn.example/kb.jpg");
      })
      ∷ (record {
        id = 2;
        title = codes "Mouse";
        price_cents = 125000;
        stock = pos 5;
        image_url = none;
      })
      ∷ (record {
        id = 3;
        title = codes "Mouse pad";
        price_cents = 45000;
        stock = pos 20;
        image_url = some (codes "https://cdn.example/pad.jpg");
      })
      ∷ [];
  orders =
      (record {
        id = 1;
        buyer_id = 1;
        items = (record { product_id = 1; quantity = 1; unit_price_cents = 260000 }) ∷ [];
        total_cents = 260000;
        status = OrderStatus.paid;
        created_at = codes "2026-08-20T09:12:00.000Z";
      })
      ∷ [];
  next_order_id = 2;
}
