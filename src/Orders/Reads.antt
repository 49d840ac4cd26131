-- ===== src/Orders/Reads.antt =====
-- orders/orders.service.ts: what `list`, `create` and `updateStatus` return.
use course_project.Base.{
  ℕ, suc, ◌*◌, ◌≡◌, ◌<◌, refl, sym, subst, ◌∙◌, ◌==◌, Option, none, some, List, [], ◌∷◌, map,
  filter, find, length, All, Result, ok, err, arith, Bool-cases, Option-cases, inl, inr,
}
use course_project.Base.Sort.{sort_by}
use course_project.Base.Tables.{Distinct, sum_by}
use course_project.Base.Text.{Text}
use course_project.Js.{Host}
use course_project.Db.Rows.{Db, User, Order, OrderItem}
use course_project.Checkout.Steps.{CheckoutError, Clock, Placed}
use course_project.Checkout.Run.{checkout}
use course_project.Checkout.Measures.{lines_total}
use course_project.Checkout.Consistency.{IsConsistent, checkout-IsConsistent}
use course_project.Pagination.{Base64}
use course_project.Pagination.Walk.{walk, IsCodec}
use course_project.Pagination.Tables.{walk_table}
use course_project.Orders.Service.{
  HttpItem, HttpOrder, CreateOrderDto, ServiceError, find_order, to_http_item, to_http, find_one,
  limit_or, list, checkout_input, created, create,
}

-- If orders have distinct positive ids and cursors survive their encoding, a client that follows the
-- cursors from the first page reads every order once, in the order of the ids, in at most one
-- request more than there are orders.
list_complete :
    (host : Host) (base64 : Base64 host) (limit : Option ℕ) (n : ℕ) (db : Db)
    → IsCodec host base64
    → limit_or host limit ≡ suc n
    → Distinct (λ (o : Order). o.id) db.orders
    → All (λ (o : Order). 0 < o.id) db.orders
    → let page = map (to_http host db.order_items) (sort_by (λ (o : Order). o.id) db.orders) in
      walk (λ cursor. list host base64 limit cursor db) (suc (length page)) none ≡ some page
unfolding list
list_complete host base64 limit n db codec size distinct positive =
    walk_table host base64 (to_http host db.order_items) (λ o. o.id) (λ o. o.id) (λ o. refl)
      (limit_or host limit) n db.orders codec size distinct positive

-- The value of the items of an order.
abbrev pub items_total : List HttpItem → ℕ
items_total = sum_by λ i. i.unit_price_cents * i.quantity

items_total-lines_total :
    (id : ℕ) (items : List OrderItem)
    → items_total (map to_http_item (filter (λ (i : OrderItem). i.order_id == id) items))
      ≡ lines_total id items
unfolding sum_by
items_total-lines_total id [] = refl
items_total-lines_total id (i ∷ items) = ground (arith, items_total-lines_total id items)

find-All :
    (P : Order → Type 0) (id : ℕ) (row : Order) (orders : List Order)
    → find_order id orders ≡ some row
    → All P orders
    → P row
find-All P id row [] h ps = cc
find-All P id row (o ∷ orders) h ps = elim (Bool-cases (o.id == id)) [
  | inl here ↦ let same : o ≡ row = ground (arith, here) in subst P same ps.0
  | inr other ↦ find-All P id row orders (ground (arith, other)) ps.1
]

module _ (host : Host) where
  -- An order that is read from a consistent database has the total of its items.
  find_one-total :
      (id : ℕ) (db db' : Db) (order : HttpOrder)
      → IsConsistent db
      → find_one host id db ≡ (ok order, db')
      → (db' ≡ db) × (order.total_cents ≡ items_total order.items)
  unfolding find_one
  find_one-total id db db' order c h = elim (Option-cases (find_order id db.orders)) [
    | inl missing ↦ absurd (ground (arith, h, missing))
    | inr (row, found) ↦
        let same : order ≡ to_http host db.order_items row = ground (arith, h, found) in
        (
          ground (arith, h, found),
          subst (λ o. o.total_cents ≡ items_total o.items) (sym same)
              (find-All (λ o. o.total ≡ lines_total o.id db.order_items) id row db.orders found
                  c.orders.totals
                ∙ sym (items_total-lines_total row.id db.order_items)),
        )
  ]

  -- The result of `create` for a buyer that exists.
  abbrev placed :
      CreateOrderDto → Option Text → Clock → User → Db → Result ServiceError HttpOrder × Db
  placed dto key clock buyer db =
      created host (checkout host (checkout_input host dto key buyer) clock db)

  create-placed :
      (dto : CreateOrderDto) (key : Option Text) (clock : Clock) (buyer : User) (db : Db)
      → find (λ (u : User). u.id == dto.buyer_id) db.users ≡ some buyer
      → create host dto key clock db ≡ placed dto key clock buyer db
  unfolding create
  create-placed dto key clock buyer db found = ground (arith, found)

  created-eq-ok :
      (out : Result CheckoutError Placed × Db) (order : HttpOrder) (db' : Db)
      → created host out ≡ (ok order, db')
      → (p : Placed) × (out.0 ≡ ok p) × (find_one host p.order_id out.1 ≡ (ok order, db'))
  created-eq-ok (err e, mid) order db' h = absurd (ground (arith, h))
  created-eq-ok (ok p, mid) order db' h = (p, refl, h)

  -- On a consistent database, `create` keeps the database consistent, and the order that it returns
  -- has as its total the sum of unit price times quantity over the items that it returns.
  pub create-total :
      (dto : CreateOrderDto) (key : Option Text) (clock : Clock) (db db' : Db) (order : HttpOrder)
      → IsConsistent db
      → create host dto key clock db ≡ (ok order, db')
      → IsConsistent db' × (order.total_cents ≡ items_total order.items)
  unfolding create
  create-total dto key clock db db' order c h =
      elim (Option-cases (find (λ (u : User). u.id == dto.buyer_id) db.users)) [
        | inl missing ↦ absurd (ground (arith, h, missing))
        | inr (buyer, found) ↦
            let input = checkout_input host dto key buyer in
            let out = checkout host input clock db in
            let (p, _, read) =
              created-eq-ok out order db' (sym (create-placed dto key clock buyer db found) ∙ h) in
            let (same, total) =
              find_one-total p.order_id out.1 db' order
                (checkout-IsConsistent host input clock db c) read in
            (subst IsConsistent (sym same) (checkout-IsConsistent host input clock db c), total)
      ]
