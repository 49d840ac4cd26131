-- ===== src/Products/Catalog.antt =====
-- products/products.service.ts: what a client reads who walks through the catalog.
use course_project.Base.{ℕ, suc, ◌≡◌, refl, ◌<◌, Option, none, some, map, length, All}
use course_project.Base.Sort.{sort_by}
use course_project.Base.Tables.{Distinct}
use course_project.Js.{Host}
use course_project.Db.Rows.{Db, Product}
use course_project.Pagination.{Base64}
use course_project.Pagination.Walk.{walk, IsCodec}
use course_project.Pagination.Tables.{walk_table}
use course_project.Products.{to_http, list, limit_or}

-- If products have distinct positive ids and cursors survive their encoding, a client that follows
-- the cursors from the first page reads every product once, in the order of the ids, in at most one
-- request more than there are products.
pub catalog_complete :
    (host : Host) (base64 : Base64 host) (limit : Option ℕ) (n : ℕ) (db : Db)
    → IsCodec host base64
    → limit_or limit ≡ suc n
    → Distinct (λ (p : Product). p.id) db.products
    → All (λ (p : Product). 0 < p.id) db.products
    → let catalog = map to_http (sort_by (λ (p : Product). p.id) db.products) in
      walk (λ cursor. list host base64 limit cursor db) (suc (length catalog)) none ≡ some catalog
unfolding list
catalog_complete host base64 limit n db codec size distinct positive =
    walk_table host base64 to_http (λ p. p.id) (λ p. p.id) (λ p. refl) (limit_or limit) n
      db.products codec size distinct positive
