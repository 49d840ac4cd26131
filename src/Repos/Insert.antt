-- ===== src/Repos/Insert.antt =====
-- repos/products.repo.ts: `create`, with the constraints of the table.
use course_project.Base.{
  ℕ, suc, ◌≡◌, refl, ◌∙◌, leb, ◌==◌, Bool, true, ◌&&◌, Option, none, some, List, [], ◌∷◌, ◌++◌,
  Result, ok, err, find, any, if◌then◌else◌, find-append_none, arith,
}
use course_project.Base.Text.{Text, truthy}
use course_project.Db.Rows.{int4_max, User, Product}
use course_project.Repos.{ProductRow, product_row, find_by_id}

pub record ProductInput : Type 0 where
  pub seller_id : ℕ
  pub name : Text
  pub price : ℕ
  pub stock : ℕ
  pub description : Option Text

-- The table, and the next value of its identity column.
pub record ProductTable : Type 0 where
  pub products : List Product
  pub next_id : ℕ

pub data ProductError : Type 0 where
  number_out_of_range name_empty no_such_seller : ProductError

-- `input.description ?? ''`
abbrev pub description_of : Option Text → Text
description_of none = []
description_of (some t) = t

abbrev pub new_product : ProductInput → ℕ → Product
new_product input next = record {
  id = next;
  seller_id = input.seller_id;
  name = input.name;
  description = description_of input.description;
  price = input.price;
  stock = input.stock;
}

-- The columns `price` and `stock` are of type int4.
abbrev pub numbers_fit : ProductInput → Bool
numbers_fit input = leb input.price int4_max && leb input.stock int4_max

-- The seller is a user, by the foreign key.
abbrev pub has_seller : List User → ProductInput → Bool
has_seller users input = any (λ (u : User). u.id == input.seller_id) users

-- The answer of the database, once the row has its id.
abbrev pub insert_product : List User → ProductInput → ProductTable → Result ProductError ProductRow
insert_product users input t =
    if truthy input.name
    then if has_seller users input
      then ok (product_row (new_product input t.next_id))
      else err no_such_seller
    else err name_empty

-- A row that is refused has taken its id.
abbrev pub with_answer :
    ProductInput
    → ProductTable
    → Result ProductError ProductRow
    → Result ProductError ProductRow × ProductTable
with_answer input t (err e) = (err e, record t { next_id = suc t.next_id })
with_answer input t (ok row) = (
  ok row,
  record { products = t.products ++ new_product input t.next_id ∷ []; next_id = suc t.next_id },
)

-- `create`
unfoldable pub create_product :
    List User → ProductInput → ProductTable → Result ProductError ProductRow × ProductTable
create_product users input t =
    if numbers_fit input
    then with_answer input t (insert_product users input t)
    else (err number_out_of_range, t)

-- A product that is accepted has the fields of the input, and is the one that is found by its id,
-- if the identity column has not given this id to another row.
pub create_product-find :
    (users : List User) (input : ProductInput) (t : ProductTable)
    → numbers_fit input ≡ true
    → truthy input.name ≡ true
    → has_seller users input ≡ true
    → find (λ (p : Product). p.id == t.next_id) t.products ≡ none
    → find_by_id t.next_id (create_product users input t).1.products
      ≡ some (product_row (new_product input t.next_id))
unfolding create_product find_by_id
create_product-find users input t fit named sold unused =
    let row = new_product input t.next_id in
    let found : find (λ (p : Product). p.id == t.next_id) (t.products ++ row ∷ []) ≡ some row =
      find-append_none _ t.products (row ∷ []) unused ∙ ground arith in
    rw (fit, named, sold, find_by_id, found) refl
