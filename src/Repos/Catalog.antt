-- ===== src/Repos/Catalog.antt =====
-- repos/products.repo.ts: the revenues of the catalog are those of all order lines.
use course_project.Base.{
  ℕ, ◌+◌, ◌*◌, ◌≡◌, ◌≢◌, refl, sym, ap, subst, ◌∙◌, leb, ◌==◌, ==_iff, true, false, Option, none,
  some, List, [], ◌∷◌, Result, ok, err, find, any, map, if◌then◌else◌, All, Bool-cases, inl, inr,
  arith, not, ◌≤◌,
}
use course_project.Base.Sort.{
  sort_by, sort_by-IsSorted, IsSorted, IsSorted-map, All-sort_by, sum_by-sort_by,
}
use course_project.Base.Tables.{Distinct, sum_by}
use course_project.Db.Rows.{int4_max, User, Product, OrderItem}
use course_project.Repos.{
  SellerCatalogRow, RangeError, items_of, revenue_of, fits_int4, group_row, add_group, groups,
  catalog_with_revenue,
}

abbrev pub amount : OrderItem → ℕ
amount i = i.quantity * i.unit_price

-- The product's seller is a user.
abbrev pub IsSold : List User → Product → Type 0
IsSold users p = any (λ (u : User). u.id == p.seller_id) users ≡ true

abbrev pub revenue_total : List SellerCatalogRow → ℕ
revenue_total = sum_by λ r. r.revenue_cents

find-missing :
    (id : ℕ) (users : List User)
    → find (λ (u : User). u.id == id) users ≡ none
    → any (λ (u : User). u.id == id) users ≡ false
find-missing id [] h = refl
find-missing id (u ∷ users) h = ground (arith, find-missing id users, h)

-- What one group adds to the rows of the others.
record Group (items : List OrderItem) (p : Product)
    (rest : Result RangeError (List SellerCatalogRow)) (rows : List SellerCatalogRow) : Type 0 where
  others : List SellerCatalogRow
  rest_ok : rest ≡ ok others
  ids :
      map (λ (r : SellerCatalogRow). r.product_id) rows
      ≡ p.id ∷ map (λ (r : SellerCatalogRow). r.product_id) others
  total : revenue_total rows ≡ revenue_of p items + revenue_total others

-- Without an error, a product with a seller adds one row with its revenue.
add_group-Group :
    (items : List OrderItem) (p : Product) (seller : Option User)
    (rest : Result RangeError (List SellerCatalogRow)) (rows : List SellerCatalogRow)
    → seller ≢ none
    → add_group items p seller rest ≡ ok rows
    → Group items p rest rows
unfolding sum_by
add_group-Group items p none rest rows sold h = absurd (sold refl)
add_group-Group items p (some seller) (err e) rows sold h = absurd (ground (arith, h))
add_group-Group items p (some seller) (ok old) rows sold h = elim (Bool-cases (fits_int4 p items)) [
  | inr misfit ↦ absurd (ground (arith, h, misfit))
  | inl fits ↦
      let same : group_row items p seller ∷ old ≡ rows = ground (arith, h, fits) in
      record {
        others = old;
        rest_ok = refl;
        ids = sym (ap (map (λ (r : SellerCatalogRow). r.product_id)) same);
        total = sym (ap revenue_total same);
      }
]

groups-Total :
    (users : List User) (items : List OrderItem) (products : List Product)
    (rows : List SellerCatalogRow)
    → All (IsSold users) products
    → groups users items products ≡ ok rows
    → (map (λ (r : SellerCatalogRow). r.product_id) rows ≡ map (λ (p : Product). p.id) products)
      × (revenue_total rows ≡ sum_by (λ (p : Product). revenue_of p items) products)
unfolding sum_by
groups-Total users items [] rows sold h =
    let same : [] ≡ rows = ground (arith, h) in
    (sym (ap (map (λ (r : SellerCatalogRow). r.product_id)) same), sym (ap revenue_total same))
groups-Total users items (p ∷ products) rows sold h =
    let g =
      add_group-Group items p _ (groups users items products) rows
        (λ (missing : find (λ (u : User). u.id == p.seller_id) users ≡ none).
          ground (arith, find-missing p.seller_id users missing, sold.0))
        h in
    let (ids, total) = groups-Total users items products g.others sold.1 g.rest_ok in
    (g.ids ∙ ap (λ rest. p.id ∷ rest) ids, omega (arith, g.total, total))

-- An item's amount counts for the product with its id, and for no other.
hit : OrderItem → Product → ℕ
hit i p = if i.product_id == p.id then amount i else 0

hits-absent :
    (i : OrderItem) (products : List Product)
    → All (λ (p : Product). p.id ≢ i.product_id) products
    → sum_by (hit i) products ≡ 0
unfolding sum_by hit
hits-absent i [] absent = refl
hits-absent i (p ∷ products) absent = ground (arith, absent.0, hits-absent i products absent.1)

hits-one :
    (i : OrderItem) (products : List Product)
    → Distinct (λ (p : Product). p.id) products
    → any (λ (p : Product). p.id == i.product_id) products ≡ true
    → sum_by (hit i) products ≡ amount i
unfolding sum_by hit
hits-one i [] d h = absurd (ground (arith, h))
hits-one i (p ∷ products) d h = elim (Bool-cases (p.id == i.product_id)) [
  | inl same ↦
      let e : p.id ≡ i.product_id = (==_iff p.id i.product_id).0 same in
      ground (arith, e, hits-absent i products (rw (← e) d.0))
  | inr other ↦ ground (arith, other, hits-one i products d.1 (ground (arith, h, other)))
]

revenues-cons :
    (i : OrderItem) (items : List OrderItem) (products : List Product)
    → sum_by (λ (p : Product). revenue_of p (i ∷ items)) products
      ≡ sum_by (hit i) products + sum_by (λ (p : Product). revenue_of p items) products
unfolding sum_by hit
revenues-cons i items [] = refl
revenues-cons i items (p ∷ products) = ground (arith, revenues-cons i items products)

revenues-nil : (products : List Product) → sum_by (λ (p : Product). revenue_of p []) products ≡ 0
unfolding sum_by
revenues-nil [] = refl
revenues-nil (p ∷ products) = omega (arith, revenues-nil products)

-- Sums by product and sums by item are the same.
revenues-amounts :
    (items : List OrderItem) (products : List Product)
    → Distinct (λ (p : Product). p.id) products
    → All (λ (i : OrderItem). any (λ (p : Product). p.id == i.product_id) products ≡ true) items
    → sum_by (λ (p : Product). revenue_of p items) products ≡ sum_by amount items
unfolding sum_by
revenues-amounts [] products d h = revenues-nil products
revenues-amounts (i ∷ items) products d h = omega (
  arith,
  revenues-cons i items products,
  hits-one i products d h.0,
  revenues-amounts items products d h.1,
)

-- A group fits when all amounts together do.
revenue_of-le : (p : Product) (items : List OrderItem) → revenue_of p items ≤ sum_by amount items
unfolding sum_by
revenue_of-le p [] = omega arith
revenue_of-le p (i ∷ items) = ground (arith, revenue_of-le p items)

amounts-fit :
    (p : Product) (items : List OrderItem)
    → sum_by amount items ≤ int4_max
    → any (λ i. not (leb (amount i) int4_max)) (items_of p items) ≡ false
unfolding sum_by
amounts-fit p [] h = refl
amounts-fit p (i ∷ items) h =
    let rest = amounts-fit p items (omega (arith, h)) in ground (arith, h, rest)

fits :
    (p : Product) (items : List OrderItem)
    → sum_by amount items ≤ int4_max
    → fits_int4 p items ≡ true
fits p items h = ground (arith, h, amounts-fit p items h, revenue_of-le p items)

add_group-ok :
    (items : List OrderItem) (p : Product) (seller : Option User) (old : List SellerCatalogRow)
    → fits_int4 p items ≡ true
    → (rows : List SellerCatalogRow) × (add_group items p seller (ok old) ≡ ok rows)
add_group-ok items p none old h = (old, refl)
add_group-ok items p (some seller) old h = (group_row items p seller ∷ old, ground (arith, h))

groups-ok :
    (users : List User) (items : List OrderItem) (products : List Product)
    → sum_by amount items ≤ int4_max
    → (rows : List SellerCatalogRow) × (groups users items products ≡ ok rows)
groups-ok users items [] h = ([], refl)
groups-ok users items (p ∷ products) h =
    let (old, before) = groups-ok users items products h in
    let seller = find (λ (u : User). u.id == p.seller_id) users in
    let (rows, after) = add_group-ok items p seller old (fits p items h) in
    (rows, ap (add_group items p seller) before ∙ after)

-- If product ids are distinct, every product has a seller, every order line has a product, and the
-- amounts of all order lines sum up to an integer of the database, then the catalog returns each
-- product once, in the order of the ids, with revenues that sum up to the amounts of all order lines.
pub catalog_with_revenue-total :
    (users : List User) (items : List OrderItem) (products : List Product)
    → Distinct (λ (p : Product). p.id) products
    → All (IsSold users) products
    → All (λ (i : OrderItem). any (λ (p : Product). p.id == i.product_id) products ≡ true) items
    → sum_by amount items ≤ int4_max
    → (rows : List SellerCatalogRow) × (catalog_with_revenue users items products ≡ ok rows)
      × IsSorted (λ n. n) (map (λ (r : SellerCatalogRow). r.product_id) rows)
      × (map (λ (r : SellerCatalogRow). r.product_id) rows
          ≡ map (λ (p : Product). p.id) (sort_by (λ (p : Product). p.id) products))
      × (revenue_total rows ≡ sum_by amount items)
unfolding catalog_with_revenue
catalog_with_revenue-total users items products distinct sold known h =
    let sorted = sort_by (λ (p : Product). p.id) products in
    let (rows, e) = groups-ok users items sorted h in
    let (ids, total) =
      groups-Total users items sorted rows
        (All-sort_by (λ (p : Product). p.id) (IsSold users) products sold) e in
    (
      rows,
      e,
      subst (IsSorted λ n. n) (sym ids) (
          IsSorted-map (λ (p : Product). p.id) (λ (p : Product). p.id) (λ n. n) sorted (λ p. refl)
            (sort_by-IsSorted (λ (p : Product). p.id) products distinct)),
      ids,
      total
          ∙ sum_by-sort_by (λ (p : Product). p.id) (λ (p : Product). revenue_of p items) products
          ∙ revenues-amounts items products distinct known,
    )
