-- ===== src/Seed.antt =====
-- seed.ts: the users, the catalog and the orders that a database is filled with.
pub mod Loop
pub mod Funded
pub mod Listed
pub mod Ordered
pub mod Again
pub mod Data
use course_project.Base.{
  ℕ, suc, ◌+◌, ◌*◌, ◌%◌, ltb, ◌==◌, Bool, true, false, ◌&&◌, if◌then◌else◌, Option, none, some,
  List, [], ◌∷◌, ◌++◌, find, any, update, Result, ok, err,
}
use course_project.Base.Text.{Text, codes, text_eq}
use course_project.Db.Rows.{User, UserRole, Product, Order, OrderItem, OrderStatus, int4_max}
use course_project.Checkout.Steps.{PricedLine, CheckoutError}
use course_project.Checkout.Run.{insert_items}
use course_project.Seed.Loop.{loop}

pub record UserSpec : Type 0 where
  pub email : Text
  pub role : UserRole

pub record CatalogRow : Type 0 where
  pub name : Text
  pub description : Text
  pub price : ℕ
  pub stock : ℕ
  pub seller_email : Text

pub record SpecLine : Type 0 where
  pub product_name : Text
  pub quantity : ℕ

pub record OrderSpec : Type 0 where
  pub buyer_email : Text
  pub status : OrderStatus
  pub created_at : ℕ
  pub lines : List SpecLine

-- A name that is in no map is undefined: a property of it is read, or a row gets NULL for it.
pub data SeedError : Type 0 where
  type_error not_null_violation numeric_value_out_of_range : SeedError
  item_rows : CheckoutError → SeedError

-- The tables that a loop writes, with the next ids.
pub record SeedUsers : Type 0 where
  pub rows : List User
  pub next : ℕ

pub record SeedProducts : Type 0 where
  pub rows : List Product
  pub next : ℕ

pub record SeedOrders : Type 0 where
  pub rows : List Order
  pub next : ℕ
  pub items : List OrderItem
  pub next_item : ℕ

abbrev pub seed_balance : ℕ
seed_balance = 100000000

-- `map.get(key)`; of a user, only the id is read later.
abbrev pub entry_value {ℓ} : {V : Type ℓ} → Text → List (Text × V) → Option V
entry_value k [] = none
entry_value k ((j, v) ∷ entries) = if text_eq j k then some v else entry_value k entries

abbrev pub has_address : Text → User → Bool
has_address e u = text_eq u.email e

-- `userRepo.save(user)` of a row that is there updates the columns that differ.
abbrev pub top_up : ℕ → List User → List User
top_up id = update (λ u. u.id == id) (λ u. record u { balance_cents = seed_balance })

abbrev pub seeded_user : UserSpec → ℕ → User
seeded_user row id = record {
  id = id;
  email = row.email;
  role = row.role;
  balance_cents = seed_balance;
}

-- One turn of the loop over `[...SELLERS, ...BUYERS]`
abbrev pub user_found : UserSpec → Option User → SeedUsers → Result SeedError (Text × ℕ) × SeedUsers
user_found row none t = (
  ok (row.email, t.next),
  record { rows = t.rows ++ seeded_user row t.next ∷ []; next = suc t.next },
)
user_found row (some user) t = (
  ok (row.email, user.id),
  if ltb user.balance_cents seed_balance then record t { rows = top_up user.id t.rows } else t,
)

unfoldable pub seed_user : UserSpec → SeedUsers → Result SeedError (Text × ℕ) × SeedUsers
seed_user row t = user_found row (find (has_address row.email) t.rows) t

-- `productRepo.findOne`: of several rows, the first.
abbrev pub is_listed : CatalogRow → ℕ → Product → Bool
is_listed row seller p = text_eq p.name row.name && p.seller_id == seller

abbrev pub listed : CatalogRow → ℕ → ℕ → Product
listed row seller id = record {
  id = id;
  seller_id = seller;
  name = row.name;
  description = row.description;
  price = row.price;
  stock = row.stock;
}

abbrev pub product_found :
    CatalogRow
    → ℕ
    → Option Product
    → SeedProducts
    → Result SeedError (Text × Product) × SeedProducts
product_found row seller (some p) t = (ok (row.name, p), t)
product_found row seller none t = (
  ok (row.name, listed row seller t.next),
  record { rows = t.rows ++ listed row seller t.next ∷ []; next = suc t.next },
)

abbrev pub product_of_seller :
    CatalogRow → Option ℕ → SeedProducts → Result SeedError (Text × Product) × SeedProducts
product_of_seller row none t = (err type_error, t)
product_of_seller row (some seller) t =
    product_found row seller (find (is_listed row seller) t.rows) t

-- One turn of the loop over `CATALOG`
unfoldable pub seed_product :
    List (Text × ℕ) → CatalogRow → SeedProducts → Result SeedError (Text × Product) × SeedProducts
seed_product users row = product_of_seller row (entry_value row.seller_email users)

-- `innerJoin('o.buyer', 'b')` with the two conditions
abbrev pub is_buyer : Text → ℕ → User → Bool
is_buyer email id u = u.id == id && text_eq u.email email

abbrev pub is_seeded : List User → OrderSpec → Order → Bool
is_seeded users spec o =
    any (is_buyer spec.buyer_email o.buyer_id) users && o.created_at == spec.created_at

-- The rows of `items`
abbrev pub with_product :
    SpecLine → Option Product → Option (List PricedLine) → Option (List PricedLine)
with_product line (some p) (some rest) =
    some ((record { product_id = p.id; quantity = line.quantity; unit_price = p.price }) ∷ rest)
with_product line none _ = none
with_product line (some p) none = none

abbrev pub spec_items : List (Text × Product) → List SpecLine → Option (List PricedLine)
spec_items products [] = some []
spec_items products (line ∷ lines) =
    with_product line (entry_value line.product_name products) (spec_items products lines)

-- `items.reduce((sum, item) => sum + item.quantity * item.unitPrice, 0)`
abbrev pub sum_from : ℕ → List PricedLine → ℕ
sum_from sum [] = sum
sum_from sum (i ∷ items) = sum_from (sum + i.quantity * i.unit_price) items

-- `orderRepo.save(order)`: one transaction for the order and its items, which does not roll back the
-- sequences.
abbrev pub saved_items :
    OrderSpec
    → ℕ
    → ℕ
    → SeedOrders
    → Result CheckoutError (Unit {0}) × List OrderItem × ℕ
    → Result SeedError (Unit {0}) × SeedOrders
saved_items spec buyer total t (err e, table, next) =
    (err (item_rows e), record t { next = suc t.next; next_item = next })
saved_items spec buyer total t (ok _, table, next) = (
  ok tt,
  record {
    rows =
        t.rows
        ++ (record {
          id = t.next;
          buyer_id = buyer;
          status = spec.status;
          total = total;
          created_at = spec.created_at;
        })
          ∷ [];
    next = suc t.next;
    items = table;
    next_item = next;
  },
)

abbrev pub save_spec :
    OrderSpec
    → Option ℕ
    → Option (List PricedLine)
    → SeedOrders
    → Result SeedError (Unit {0}) × SeedOrders
save_spec spec buyer none t = (err type_error, t)
save_spec spec none (some lines) t = (err not_null_violation, record t { next = suc t.next })
save_spec spec (some buyer) (some lines) t =
    let total = sum_from 0 lines in
    if ltb int4_max total
    then (err numeric_value_out_of_range, t)
    else saved_items spec buyer total t (insert_items t.next lines t.items t.next_item)

-- One turn of the loop over `SEED_ORDERS`
unfoldable pub seed_order :
    List User
    → List (Text × ℕ)
    → List (Text × Product)
    → OrderSpec
    → SeedOrders
    → Result SeedError (Unit {0}) × SeedOrders
seed_order users ids products spec t =
    if any (is_seeded users spec) t.rows
    then (ok tt, t)
    else save_spec spec (entry_value spec.buyer_email ids) (spec_items products spec.lines) t

-- The tables that the script writes.
pub record Shop : Type 0 where
  pub users : SeedUsers
  pub products : SeedProducts
  pub orders : SeedOrders

abbrev pub after_orders :
    Shop → Result SeedError (List (Unit {0})) × SeedOrders → Result SeedError (Unit {0}) × Shop
after_orders s (err e, t) = (err e, record s { orders = t })
after_orders s (ok _, t) = (ok tt, record s { orders = t })

module _ (users : List UserSpec) (catalog : List CatalogRow) (specs : List OrderSpec) where
  abbrev pub after_products :
      List (Text × ℕ)
      → Shop
      → Result SeedError (List (Text × Product)) × SeedProducts
      → Result SeedError (Unit {0}) × Shop
  after_products ids s (err e, t) = (err e, record s { products = t })
  after_products ids s (ok products, t) =
      after_orders (record s { products = t })
        (loop (seed_order s.users.rows ids products) specs [] s.orders)

  abbrev pub after_users :
      Shop → Result SeedError (List (Text × ℕ)) × SeedUsers → Result SeedError (Unit {0}) × Shop
  after_users s (err e, t) = (err e, record s { users = t })
  after_users s (ok ids, t) =
      after_products ids (record s { users = t }) (loop (seed_product ids) catalog [] s.products)

  -- `main`, up to the counts that it prints
  unfoldable pub seed : Shop → Result SeedError (Unit {0}) × Shop
  unfolding seed_user seed_product seed_order
  seed s = after_users s (loop seed_user users [] s.users)
