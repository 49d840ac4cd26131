-- ===== src/Products.antt =====
-- products/products.service.ts and products/products.controller.ts: the catalog over HTTP.
pub mod Catalog
use course_project.Base.{ℕ, ◌==◌, Option, none, some, List, find, map, Result, ok, err}
use course_project.Base.Sort.{sort_by}
use course_project.Base.Text.{Text}
use course_project.Js.{Host}
use course_project.Db.Rows.{Db, Product}
use course_project.Pagination.{Base64, Page, BadCursor, paginate}

-- `Product` as the HTTP interface has it
pub record HttpProduct : Type 0 where
  pub id : ℕ
  pub title : Text
  pub price_cents : ℕ
  pub stock : ℕ
  pub image_url : Option Text

pub data ProductError : Type 0 where
  not_found : ProductError

abbrev pub to_http : Product → HttpProduct
to_http row = record {
  id = row.id;
  title = row.name;
  price_cents = row.price;
  stock = row.stock;
  image_url = none;
}

unfoldable pub find_one : ℕ → Db → Result ProductError HttpProduct
find_one id db = elim (find (λ (p : Product). p.id == id) db.products) [
  | none ↦ err not_found
  | some row ↦ ok (to_http row)
]

-- `query.limit ?? 10`
abbrev pub limit_or : Option ℕ → ℕ
limit_or none = 10
limit_or (some n) = n

unfoldable pub list :
    (host : Host) → Base64 host → Option ℕ → Option Text → Db → Result BadCursor (Page HttpProduct)
list host base64 limit cursor db =
    paginate host base64 (λ (p : HttpProduct). p.id)
      (map to_http (sort_by (λ (p : Product). p.id) db.products)) (limit_or limit) cursor
