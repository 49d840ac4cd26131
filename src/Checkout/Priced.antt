-- ===== src/Checkout/Priced.antt =====
-- checkout.ts: the lines of an order are those of the request, at the prices of the products.
use course_project.Base.{
  ℕ, suc, ◌-◌, ◌*◌, ◌≡◌, ◌∙◌, refl, sym, ap, ◌==◌, ==_iff, Bool-cases, none, some, List, [], ◌∷◌,
  ◌++◌, map, ok, arith, inl, inr, find, update, All, Option-cases, Result-cases, subst,
}
use course_project.Base.{◌≢◌}
use mathlib.Core.List.{append-nil, append_assoc}
use course_project.Base.Tables.{sum_by}
use course_project.Db.Rows.{Product, OrderItem}
use course_project.Checkout.Steps.{
  CheckoutLine, PricedLine, Reserved, reservable, priced, reserve_line, reserve_lines,
}
use course_project.Checkout.Run.{insert_items}
use course_project.Checkout.Measures.{amount}
use course_project.Checkout.StepLaws.{ProductKeys, reserve_line-stock, after_line, item_row}

-- The price of the product with the id.
abbrev pub price_of : ℕ → List Product → ℕ
price_of id products = elim (find (λ (p : Product). p.id == id) products) [
  | none ↦ 0
  | some p ↦ p.price
]

-- What the request orders, and the value of it.
abbrev pub bought : List Product → CheckoutLine → PricedLine
bought products l = record {
  product_id = l.product_id;
  quantity = l.quantity;
  unit_price = price_of l.product_id products;
}

abbrev pub total_of : List Product → List CheckoutLine → ℕ
total_of products = sum_by λ l. price_of l.product_id products * l.quantity

-- The rows of order `id` for the lines, numbered from `next` on.
abbrev pub item_rows : ℕ → ℕ → List Product → List CheckoutLine → List OrderItem
item_rows id next products [] = []
item_rows id next products (l ∷ lines) =
    (record {
      id = next;
      order_id = id;
      product_id = l.product_id;
      quantity = l.quantity;
      unit_price = price_of l.product_id products;
    })
    ∷ item_rows id (suc next) products lines

find-absent :
    (item : CheckoutLine) (products : List Product)
    → All (λ (p : Product). p.id ≢ item.product_id) products
    → find (reservable item) products ≡ none
find-absent item [] h = refl
find-absent item (p ∷ products) (h, hs) = ground (arith, h, find-absent item products hs)

find-price :
    (item : CheckoutLine) (products : List Product) (q : Product)
    → ProductKeys products
    → find (reservable item) products ≡ some q
    → price_of item.product_id products ≡ q.price
find-price item [] q keys h = cc
find-price item (p ∷ products) q (apart, keys) h = elim (Bool-cases (p.id == item.product_id)) [
  | inr other ↦ ground (arith, other, h, find-price item products q keys)
  | inl same ↦ elim (Bool-cases (reservable item p)) [
    | inl hit ↦ ground (arith, same, hit, h)
    | inr miss ↦
        let key : p.id ≡ item.product_id = (==_iff p.id item.product_id).0 same in
        absurd (
          ground (
            arith,
            miss,
            h,
            find-absent item products
                (subst (λ k. All (λ (r : Product). r.id ≢ k) products) key apart),
          ))
  ]
]

price_of-update :
    (id : ℕ) (item : CheckoutLine) (products : List Product)
    → price_of id
        (update (reservable item) (λ q. record q { stock = q.stock - item.quantity }) products)
      ≡ price_of id products
price_of-update id item [] = refl
price_of-update id item (p ∷ products) = ground (arith, price_of-update id item products)

-- One line has the price of its product, and changes no price.
reserve_line-bought :
    (item : CheckoutLine) (ps ps' : List Product) (l : PricedLine)
    → ProductKeys ps
    → reserve_line item ps ≡ ok (l, ps')
    → (l ≡ bought ps item) × ((id : ℕ) → price_of id ps' ≡ price_of id ps)
unfolding reserve_line
reserve_line-bought item ps ps' l keys h = elim (Option-cases (find (reservable item) ps)) [
  | inl e ↦ absurd (ground arith)
  | inr (q, e) ↦
      let line : l ≡ priced item q = ground arith in
      let table : ps'
          ≡ update (reservable item) (λ q. record q { stock = q.stock - item.quantity }) ps =
        ground arith in
      (
        line
            ∙ ap
                (λ n. record {
                  product_id = item.product_id;
                  quantity = item.quantity;
                  unit_price = n;
                })
                (sym (find-price item ps q keys e)),
        λ id. ap (price_of id) table ∙ price_of-update id item ps,
      )
]

pub reserve_lines-bought :
    (prices : List Product) (items : List CheckoutLine) (acc r : Reserved)
    → ProductKeys acc.products
    → ((id : ℕ) → price_of id acc.products ≡ price_of id prices)
    → reserve_lines items acc ≡ ok r
    → r.lines ≡ acc.lines ++ map (bought prices) items
unfolding reserve_lines
reserve_lines-bought prices [] acc r keys same h = ground (arith, append-nil acc.lines)
reserve_lines-bought prices (item ∷ items) acc r keys same h =
    elim (Result-cases (reserve_line item acc.products)) [
      | inl (e, x) ↦ absurd (ground (arith, x))
      | inr ((l, ps), x) ↦
          let (keys', _, _, _) = reserve_line-stock 0 item acc.products ps l keys x in
          let (line, kept) = reserve_line-bought item acc.products ps l keys x in
          let priced_line : l ≡ bought prices item =
            line
            ∙ ap
                (λ n. record {
                  product_id = item.product_id;
                  quantity = item.quantity;
                  unit_price = n;
                })
                (same item.product_id) in
          reserve_lines-bought prices items (after_line acc l ps) r keys' (λ id. kept id ∙ same id)
            (ground (arith, x))
          ∙ append_assoc acc.lines (l ∷ []) (map (bought prices) items)
          ∙ ap (λ k. acc.lines ++ k ∷ map (bought prices) items) priced_line
    ]

pub insert_items-item_rows :
    (prices : List Product) (id : ℕ) (items : List CheckoutLine) (table table' : List OrderItem)
    (next next' : ℕ)
    → insert_items id (map (bought prices) items) table next ≡ (ok tt, table', next')
    → table' ≡ table ++ item_rows id next prices items
unfolding insert_items
insert_items-item_rows prices id [] table table' next next' h = ground (arith, append-nil table)
insert_items-item_rows prices id (l ∷ items) table table' next next' h =
    insert_items-item_rows prices id items (table ++ item_row next id (bought prices l) ∷ []) table'
      (suc next) next' (ground arith)
    ∙ append_assoc table (item_row next id (bought prices l) ∷ [])
        (item_rows id (suc next) prices items)

pub amount-bought :
    (prices : List Product) (items : List CheckoutLine)
    → amount (map (bought prices) items) ≡ total_of prices items
unfolding sum_by
amount-bought prices [] = refl
amount-bought prices (l ∷ items) = ground (arith, amount-bought prices items)
