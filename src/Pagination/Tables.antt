-- ===== src/Pagination/Tables.antt =====
-- common/pagination/pagination.ts over the rows of a table in the order of their primary key.
use course_project.Base.{ℕ, suc, ◌≡◌, ◌<◌, ◌∙◌, ap, none, some, List, map, length, All, All-imp}
use course_project.Base.Sort.{sort_by, sort_by-IsSorted, All-sort_by, IsSorted-map, All-map}
use course_project.Base.Tables.{Distinct}
use course_project.Js.{Host}
use course_project.Pagination.{Base64, paginate}
use course_project.Pagination.Walk.{walk, IsCodec, walk_complete}
use native.Mathlib.Omega.{arith}

module _ {A B : Type 0} (host : Host) (base64 : Base64 host) (f : A → B) (key : A → ℕ)
    (key' : B → ℕ) (same : (x : A) → key' (f x) ≡ key x) where
  pub walk_table :
      (limit n : ℕ) (rows : List A)
      → IsCodec host base64
      → limit ≡ suc n
      → Distinct key rows
      → All (λ x. 0 < key x) rows
      → let page = map f (sort_by key rows) in
        walk (paginate host base64 key' page limit) (suc (length page)) none ≡ some page
  walk_table limit n rows codec size distinct positive =
      let page = map f (sort_by key rows) in
      ap (λ l. walk (paginate host base64 key' page l) (suc (length page)) none) size
      ∙ walk_complete host base64 key' codec page
          (IsSorted-map f key key' (sort_by key rows) same (sort_by-IsSorted key rows distinct)) n
          (All-map f (λ y. 0 < key' y) (sort_by key rows)
            (All-imp (λ x. 0 < key x) (λ x. 0 < key' (f x)) (sort_by key rows)
              (λ x h. omega (arith, h, same x)) (All-sort_by key (λ x. 0 < key x) rows positive)))
