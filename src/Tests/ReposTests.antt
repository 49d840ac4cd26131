-- ===== src/Tests/ReposTests.antt =====
-- A catalog of two products.
use course_project.Base.{ℕ, ◌≡◌, ◌≢◌, ◌≤◌, some, none, refl, List, [], ◌∷◌, map, ok, err, arith}
use course_project.Base.Sort.{IsSorted, sort_by, insert_by}
use course_project.Base.Tables.{sum_by}
use course_project.Base.Text.{codes, text_eq}
use course_project.Db.Rows.{int4_max, User, buyer, seller, Product, OrderItem}
use course_project.Repos.{SellerCatalogRow, out_of_range, catalog_with_revenue, find_by_id}
use course_project.Repos.Insert.{
  ProductInput, ProductTable, number_out_of_range, name_empty, no_such_seller, create_product,
  create_product-find,
}
use course_project.Repos.Users.{
  UserInput, UserTable, email_taken, find_by_email, create_user, upsert_by_email, IsUpserted,
  upsert_by_email-find,
}
use course_project.Repos.Catalog.{amount, revenue_total, catalog_with_revenue-total}

abbrev sellers : List User
sellers = record { id = 1; email = codes "ann@shop"; role = seller; balance_cents = 0 } ∷ []

abbrev product : ℕ → Product
product id = record {
  id = id;
  seller_id = 1;
  name = codes "mouse";
  description = [];
  price = 300;
  stock = 9;
}

abbrev goods : List Product
goods = product 2 ∷ product 1 ∷ []

abbrev line : ℕ → ℕ → OrderItem
line id quantity = record {
  id = id;
  order_id = id;
  product_id = 1;
  quantity = quantity;
  unit_price = 300;
}

abbrev lines : List OrderItem
lines = line 1 2 ∷ line 2 5 ∷ []

abbrev catalog_rows : List SellerCatalogRow
catalog_rows =
    record {
      product_id = 1;
      name = codes "mouse";
      seller_email = codes "ann@shop";
      revenue_cents = 2100;
    }
    ∷ record {
      product_id = 2;
      name = codes "mouse";
      seller_email = codes "ann@shop";
      revenue_cents = 0;
    }
    ∷ []

catalog : catalog_with_revenue sellers lines goods ≡ ok catalog_rows
unfolding catalog_with_revenue sum_by sort_by insert_by
catalog = refl

-- A sum above the largest integer is an error of the query.
overflow : catalog_with_revenue sellers (line 1 10000000 ∷ []) goods ≡ err out_of_range
unfolding catalog_with_revenue sum_by sort_by insert_by
overflow = refl

lines-fit : sum_by amount lines ≤ int4_max
unfolding sum_by
lines-fit = ground arith

catalog_with_revenue-total_example :
    (rows : List SellerCatalogRow) × (catalog_with_revenue sellers lines goods ≡ ok rows)
    × IsSorted (λ n. n) (map (λ (r : SellerCatalogRow). r.product_id) rows)
    × (map (λ (r : SellerCatalogRow). r.product_id) rows
        ≡ map (λ (p : Product). p.id) (sort_by (λ (p : Product). p.id) goods))
    × (revenue_total rows ≡ sum_by amount lines)
catalog_with_revenue-total_example =
    catalog_with_revenue-total sellers lines goods ((ground arith, tt), (tt, tt)) (refl, (refl, tt))
      (refl, (refl, tt)) lines-fit

abbrev table : UserTable
table = record { users = sellers; next_id = 2 }

-- Ann becomes a buyer and keeps her balance.
abbrev ann : UserInput
ann = record { email = codes "ann@shop"; role = buyer; balance_cents = some 7 }

ann_upserted : (upsert_by_email ann table).1.next_id ≡ 3
unfolding upsert_by_email find_by_email text_eq
ann_upserted = refl

ann_refused : (create_user ann table).0 ≡ err email_taken
unfolding create_user find_by_email text_eq
ann_refused = refl

bob_is_other : codes "bob@shop" ≢ ann.email
bob_is_other h = ground (arith, h)

upsert_by_email-find_example : IsUpserted ann (codes "bob@shop") table (upsert_by_email ann table)
upsert_by_email-find_example =
    upsert_by_email-find ann (codes "bob@shop") table (ground arith) bob_is_other

not_found : find_by_id 3 goods ≡ none
unfolding find_by_id
not_found = refl

abbrev keyboard : ProductInput
keyboard = record {
  seller_id = 1;
  name = codes "keyboard";
  price = 260000;
  stock = 8;
  description = none;
}

abbrev shelf : ProductTable
shelf = record { products = goods; next_id = 3 }

keyboard_found :
    find_by_id 3 (create_product sellers keyboard shelf).1.products
    ≡ some (record { id = 3; name = codes "keyboard"; price = 260000; stock = 8; seller_id = 1 })
keyboard_found = create_product-find sellers keyboard shelf refl refl refl refl

unknown_seller :
    create_product sellers (record keyboard { seller_id = 999 }) shelf
    ≡ (err no_such_seller, record shelf { next_id = 4 })
unfolding create_product
unknown_seller = refl

nameless :
    create_product sellers (record keyboard { name = [] }) shelf
    ≡ (err name_empty, record shelf { next_id = 4 })
unfolding create_product
nameless = refl

dear :
    create_product sellers (record keyboard { price = 2147483648 }) shelf
    ≡ (err number_out_of_range, shelf)
unfolding create_product
dear = refl
