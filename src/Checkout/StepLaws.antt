-- ===== src/Checkout/StepLaws.antt =====
-- What each step of a checkout moves.
use course_project.Base.{
  ℕ, suc, ◌+◌, ◌-◌, ◌*◌, ◌≤◌, ◌==◌, ◌≡◌, refl, ◌≢◌, true, if◌then◌else◌, List, [], ◌∷◌, ◌++◌, ok,
  arith, inl, inr, find, any, any-append, All, update, ◌&&◌, Option-cases, Result-cases,
}
use course_project.Base.Tables.{
  sum_by, sum_by-snoc, Distinct, Distinct-update, sum_by-update, find-any,
}
use course_project.Db.Rows.{User, Product, OrderItem, int4_max}
use course_project.Checkout.Steps.{
  CheckoutLine, PricedLine, Reserved, reservable, reserve_line, reserve_lines, payable, debit,
}
use course_project.Checkout.Run.{insert_items, item_taken}
use course_project.Checkout.Measures.{
  stock_of, sold, units, requested, balance_of, amount, lines_total,
}

abbrev pub ProductKeys : List Product → Type 0
ProductKeys = Distinct λ p. p.id

abbrev pub UserKeys : List User → Type 0
UserKeys = Distinct λ u. u.id

pub reserve_line-eq-ok :
    (item : CheckoutLine) (ps ps' : List Product) (l : PricedLine)
    → reserve_line item ps ≡ ok (l, ps')
    → (any (reservable item) ps ≡ true)
      × (l.product_id ≡ item.product_id)
      × (l.quantity ≡ item.quantity)
      × (ps' ≡ update (reservable item) (λ q. record q { stock = q.stock - item.quantity }) ps)
unfolding reserve_line
reserve_line-eq-ok item ps ps' l h = elim (Option-cases (find (reservable item) ps)) [
  | inl e ↦ absurd (ground arith)
  | inr (q, e) ↦ (find-any q (reservable item) ps e, ground arith, ground arith, ground arith)
]

-- One line takes its quantity from its product and leaves the other products alone.
pub reserve_line-stock :
    (p : ℕ) (item : CheckoutLine) (ps ps' : List Product) (l : PricedLine)
    → ProductKeys ps
    → reserve_line item ps ≡ ok (l, ps')
    → ProductKeys ps'
      × (stock_of p ps' + (if l.product_id == p then l.quantity else 0) ≡ stock_of p ps)
      × (l.product_id ≡ item.product_id)
      × (l.quantity ≡ item.quantity)
reserve_line-stock p item ps ps' l keys h =
    let (hit, e, q, f) = reserve_line-eq-ok item ps ps' l h in
    rw (f, e, q)
      (
        Distinct-update (λ r. r.id) (reservable item) _ ps (λ r. refl) keys,
        sum_by-update (λ (r : Product). r.id) (reservable item)
            (λ q. record q { stock = q.stock - item.quantity })
            (λ q. if q.id == p then q.stock else 0) _ item.product_id ps (λ r t. ground arith)
            (λ r t. ground arith) keys hit,
        refl,
        refl,
      )

-- The accumulator after one more line.
abbrev pub after_line : Reserved → PricedLine → List Product → Reserved
after_line acc l ps = record {
  lines = acc.lines ++ l ∷ [];
  total = acc.total + l.unit_price * l.quantity;
  products = ps;
}

-- How the loop over `items` gets from `acc` to `r`, as product `p` sees it.
pub record Reserves (p : ℕ) (items : List CheckoutLine) (acc r : Reserved) : Type 0 where
  pub keys : ProductKeys r.products
  pub stock : stock_of p r.products + units p r.lines ≡ stock_of p acc.products + units p acc.lines
  pub value : r.total + amount acc.lines ≡ acc.total + amount r.lines
  pub quantity : units p r.lines ≡ units p acc.lines + requested p items

pub reserve_lines-Reserves :
    (p : ℕ) (items : List CheckoutLine) (acc r : Reserved)
    → ProductKeys acc.products
    → reserve_lines items acc ≡ ok r
    → Reserves p items acc r
unfolding reserve_lines sum_by
reserve_lines-Reserves p [] acc r keys h = record {
  keys = ground arith;
  stock = ground arith;
  value = ground arith;
  quantity = ground arith;
}
reserve_lines-Reserves p (item ∷ items) acc r keys h =
    elim (Result-cases (reserve_line item acc.products)) [
      | inl (e, x) ↦ absurd (ground (arith, x))
      | inr ((l, ps), x) ↦
          let (keys', moved, same, same') = reserve_line-stock p item acc.products ps l keys x in
          let ih =
            reserve_lines-Reserves p items (after_line acc l ps) r keys' (ground (arith, x)) in
          record {
            keys = ih.keys;
            stock = ground (
              arith,
              ih.stock,
              moved,
              sum_by-snoc (λ (l : PricedLine). if l.product_id == p then l.quantity else 0)
                  acc.lines l,
            );
            value = ground (
              arith,
              ih.value,
              sum_by-snoc (λ (l : PricedLine). l.unit_price * l.quantity) acc.lines l,
            );
            quantity = ground (
              arith,
              ih.quantity,
              same,
              same',
              sum_by-snoc (λ (l : PricedLine). if l.product_id == p then l.quantity else 0)
                  acc.lines l,
            );
          }
    ]

-- A debit takes the total from the buyer and leaves the other users alone.
pub debit-balance :
    (b buyer total : ℕ) (us us' : List User)
    → UserKeys us
    → debit buyer total us ≡ ok us'
    → UserKeys us'
      × (balance_of b us' + (if buyer == b then total else 0) ≡ balance_of b us)
      × (total ≤ int4_max)
unfolding debit
debit-balance b buyer total us us' keys h =
    let changed : us'
        ≡ update (payable buyer total) (λ u. record u { balance_cents = u.balance_cents - total })
            us =
      ground arith in
    rw changed (
      Distinct-update (λ u. u.id) (payable buyer total) _ us (λ u. refl) keys,
      sum_by-update (λ (u : User). u.id) (payable buyer total)
          (λ u. record u { balance_cents = u.balance_cents - total })
          (λ u. if u.id == b then u.balance_cents else 0) _ buyer us (λ u t. ground arith)
          (λ u t. ground arith) keys (ground arith),
      ground arith,
    )

abbrev pub item_row : ℕ → ℕ → PricedLine → OrderItem
item_row id order_id l = record {
  id = id;
  order_id = order_id;
  product_id = l.product_id;
  quantity = l.quantity;
  unit_price = l.unit_price;
}

-- The lines become the items of order `id`.
pub insert_items-sold :
    (p o id : ℕ) (lines : List PricedLine) (table table' : List OrderItem) (next next' : ℕ)
    → insert_items id lines table next ≡ (ok tt, table', next')
    → (sold p table' ≡ sold p table + units p lines)
      × (lines_total o table' ≡ lines_total o table + (if id == o then amount lines else 0))
unfolding insert_items sum_by
insert_items-sold p o id [] table table' next next' h = ground arith
insert_items-sold p o id (l ∷ lines) table table' next next' h =
    let (s, t) =
      insert_items-sold p o id lines (table ++ item_row next id l ∷ []) table' (suc next) next'
        (ground arith) in
    (
      ground (
        arith,
        s,
        sum_by-snoc (λ (i : OrderItem). if i.product_id == p then i.quantity else 0) table
            (item_row next id l),
      ),
      ground (
        arith,
        t,
        sum_by-snoc (λ (i : OrderItem). if i.order_id == o then i.unit_price * i.quantity else 0)
            table (item_row next id l),
      ),
    )

-- Every line found its product free in the order.
insert_items-free :
    (id : ℕ) (lines : List PricedLine) (table table' : List OrderItem) (next next' : ℕ)
    → insert_items id lines table next ≡ (ok tt, table', next')
    → (p : ℕ) → item_taken id p table ≡ true
    → All (λ l. l.product_id ≢ p) lines
unfolding insert_items
insert_items-free id [] table table' next next' h p taken = tt
insert_items-free id (l ∷ lines) table table' next next' h p taken = (
  ground arith,
  insert_items-free id lines (table ++ item_row next id l ∷ []) table' (suc next) next'
      (ground arith) p
      (ground (
        arith,
        any-append (λ (i : OrderItem). i.order_id == id && i.product_id == p) table
            (item_row next id l ∷ []),
      )),
)

-- The unique constraint lets no product stand on two lines of one order.
pub insert_items-Distinct :
    (id : ℕ) (lines : List PricedLine) (table table' : List OrderItem) (next next' : ℕ)
    → insert_items id lines table next ≡ (ok tt, table', next')
    → Distinct (λ l. l.product_id) lines
unfolding insert_items
insert_items-Distinct id [] table table' next next' h = tt
insert_items-Distinct id (l ∷ lines) table table' next next' h = (
  insert_items-free id lines (table ++ item_row next id l ∷ []) table' (suc next) next'
      (ground arith) l.product_id
      (ground (
        arith,
        any-append (λ (i : OrderItem). i.order_id == id && i.product_id == l.product_id) table
            (item_row next id l ∷ []),
      )),
  insert_items-Distinct id lines (table ++ item_row next id l ∷ []) table' (suc next) next'
      (ground arith),
)
