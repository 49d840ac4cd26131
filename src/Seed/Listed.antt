-- ===== src/Seed/Listed.antt =====
-- seed.ts: the catalog.
use course_project.Base.{
  ℕ, ◌≡◌, refl, ap, sym, ◌∙◌, Option, none, some, List, find, ok, arith, find-append_some,
  find-append_none,
}
use course_project.Base.Text.{Text, text_eq_refl}
use course_project.Db.Rows.{Product}
use course_project.Seed.{
  CatalogRow, SeedProducts, entry_value, seed_product, product_of_seller, product_found, is_listed,
}
use course_project.Seed.Loop.{Holds, IsSettling}

module _ (ids : List (Text × ℕ)) where
  -- The row is the first that the query finds.
  pub record IsListed (row : CatalogRow) (entry : Text × Product) (t : SeedProducts) : Type 0 where
    pub seller : ℕ
    pub sold : entry_value row.seller_email ids ≡ some seller
    pub name : entry.0 ≡ row.name
    pub found : find (is_listed row seller) t.rows ≡ some entry.1

  product_found-IsListed :
      (r : CatalogRow) (seller : ℕ) (o : Option Product) (t : SeedProducts)
      → entry_value r.seller_email ids ≡ some seller
      → find (is_listed r seller) t.rows ≡ o
      → Holds (seed_product ids) (IsListed r) (product_found r seller o t)
  product_found-IsListed r seller none t g h = record {
    seller = seller;
    sold = g;
    name = refl;
    found =
        find-append_none (is_listed r seller) t.rows _ h ∙ rw (text_eq_refl r.name) (ground arith);
  }
  product_found-IsListed r seller (some p) t g h = record {
    seller = seller;
    sold = g;
    name = refl;
    found = h;
  }

  product_of_seller-IsListed :
      (r : CatalogRow) (o : Option ℕ) (t : SeedProducts)
      → entry_value r.seller_email ids ≡ o
      → Holds (seed_product ids) (IsListed r) (product_of_seller r o t)
  product_of_seller-IsListed r none t g = tt
  product_of_seller-IsListed r (some seller) t g =
      product_found-IsListed r seller (find (is_listed r seller) t.rows) t g refl

  product_found-IsListed_kept :
      (r q : CatalogRow) (v : Text × Product) (seller : ℕ) (o : Option Product) (s : SeedProducts)
      → IsListed r v s
      → Holds (seed_product ids) (λ _ t. IsListed r v t) (product_found q seller o s)
  product_found-IsListed_kept r q v seller none s d = record {
    seller = d.seller;
    sold = d.sold;
    name = d.name;
    found = find-append_some (is_listed r d.seller) s.rows _ v.1 d.found;
  }
  product_found-IsListed_kept r q v seller (some p) s d = d

  product_of_seller-IsListed_kept :
      (r q : CatalogRow) (v : Text × Product) (o : Option ℕ) (s : SeedProducts)
      → IsListed r v s
      → Holds (seed_product ids) (λ _ t. IsListed r v t) (product_of_seller q o s)
  product_of_seller-IsListed_kept r q v none s d = tt
  product_of_seller-IsListed_kept r q v (some seller) s d =
      product_found-IsListed_kept r q v seller (find (is_listed q seller) s.rows) s d

  seed_product-IsListed :
      (r : CatalogRow) (v : Text × Product) (s : SeedProducts)
      → IsListed r v s
      → seed_product ids r s ≡ (ok v, s)
  unfolding seed_product
  seed_product-IsListed r v s d = rw (d.sold, d.found) (ap (λ n. (ok (n, v.1), s)) (sym d.name))

  pub products-IsSettling : IsSettling (seed_product ids) IsListed
  unfolding seed_product
  products-IsSettling = record {
    done = λ r s. product_of_seller-IsListed r (entry_value r.seller_email ids) s refl;
    keep = λ r q v s d. product_of_seller-IsListed_kept r q v (entry_value q.seller_email ids) s d;
    idle = seed_product-IsListed;
  }
