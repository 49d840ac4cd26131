-- ===== src/Repos.antt =====
-- repos/products.repo.ts: the catalog with the revenue of each product, and a product by its id.
pub mod Catalog
pub mod Insert
pub mod Users
use course_project.Base.{
  ℕ, ◌+◌, ◌*◌, leb, ◌==◌, Bool, true, false, ◌&&◌, not, Option, none, some, List, [], ◌∷◌, Result,
  ok, err, filter, find, any, if◌then◌else◌,
}
use course_project.Base.Sort.{sort_by}
use course_project.Base.Tables.{sum_by}
use course_project.Base.Text.{Text}
use course_project.Db.Rows.{int4_max, User, Product, OrderItem}

pub record SellerCatalogRow : Type 0 where
  pub product_id : ℕ
  pub name : Text
  pub seller_email : Text
  pub revenue_cents : ℕ

-- The value of an expression is not one of type int4.
pub data RangeError : Type 0 where
  out_of_range : RangeError

-- `LEFT JOIN order_items oi ON oi.product_id = p.id`
abbrev pub items_of : Product → List OrderItem → List OrderItem
items_of p = filter λ i. i.product_id == p.id

-- `coalesce(sum(oi.quantity * oi.unit_price), 0)`
abbrev pub revenue_of : Product → List OrderItem → ℕ
revenue_of p items = sum_by (λ i. i.quantity * i.unit_price) (items_of p items)

-- Each product is an integer, and so is the sum, by `::int`.
abbrev pub fits_int4 : Product → List OrderItem → Bool
fits_int4 p items =
    not (any (λ i. not (leb (i.quantity * i.unit_price) int4_max)) (items_of p items))
    && leb (revenue_of p items) int4_max

abbrev pub group_row : List OrderItem → Product → User → SellerCatalogRow
group_row items p seller = record {
  product_id = p.id;
  name = p.name;
  seller_email = seller.email;
  revenue_cents = revenue_of p items;
}

-- One group of the query, by the seller that it is joined with.
abbrev pub add_group :
    List OrderItem
    → Product
    → Option User
    → Result RangeError (List SellerCatalogRow)
    → Result RangeError (List SellerCatalogRow)
add_group items p none rest = rest
add_group items p (some seller) (err e) = err e
add_group items p (some seller) (ok rows) =
    if fits_int4 p items then ok (group_row items p seller ∷ rows) else err out_of_range

abbrev pub groups :
    List User → List OrderItem → List Product → Result RangeError (List SellerCatalogRow)
groups users items [] = ok []
groups users items (p ∷ ps) =
    add_group items p (find (λ (u : User). u.id == p.seller_id) users) (groups users items ps)

-- `catalogWithRevenue`, with `ORDER BY p.id`
unfoldable pub catalog_with_revenue :
    List User → List OrderItem → List Product → Result RangeError (List SellerCatalogRow)
catalog_with_revenue users items products =
    groups users items (sort_by (λ (p : Product). p.id) products)

pub record ProductRow : Type 0 where
  pub id : ℕ
  pub name : Text
  pub price : ℕ
  pub stock : ℕ
  pub seller_id : ℕ

abbrev pub product_row : Product → ProductRow
product_row p = record {
  id = p.id;
  name = p.name;
  price = p.price;
  stock = p.stock;
  seller_id = p.seller_id;
}

-- `findById`
unfoldable pub find_by_id : ℕ → List Product → Option ProductRow
find_by_id id products = elim (find (λ (p : Product). p.id == id) products) [
  | none ↦ none
  | some p ↦ some (product_row p)
]
