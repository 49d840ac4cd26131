-- ===== src/Checkout/Consistency.antt =====
-- What checkouts leave true of the rows that they write: fresh ids, totals, and bound keys.
use course_project.Base.{
  ℕ, suc, ◌<◌, ◌≡◌, refl, ◌≢◌, Option, none, some, List, [], ◌∷◌, ◌++◌, ok, arith, subst, All,
  All-append, All-imp, All-both,
}
use course_project.Base.Text.{Text, text_eq_refl}
use course_project.Base.Tables.{sum_by, Distinct, Distinct-snoc}
use course_project.Js.{Host}
use course_project.Db.Rows.{Db, Order, OrderItem, IdempotencyKey}
use course_project.Checkout.Steps.{CheckoutInput, Clock, PricedLine, trimmed_key}
use course_project.Checkout.Run.{checkout, insert_items, order_row}
use course_project.Checkout.Outcome.{
  no_lines, claimed, bound, Trace, Succeeds, committed, checkout_cases,
}
use course_project.Checkout.Measures.{lines_total}
use course_project.Checkout.StepLaws.{item_row, reserve_lines-Reserves, insert_items-sold}
use course_project.Checkout.Conservation.{HasKeys, committed-Conserves}

-- No two orders have one id, ids that are still to come are not used, and the total of every order is
-- the value of its lines.
pub record HasTotals (db : Db) : Type 0 where
  pub keys : HasKeys db
  pub distinct_orders : Distinct (λ (o : Order). o.id) db.orders
  pub fresh_orders : All (λ o. o.id < db.seq.order) db.orders
  pub fresh_items : All (λ i. i.order_id < db.seq.order) db.order_items
  pub totals : All (λ o. o.total ≡ lines_total o.id db.order_items) db.orders

-- Besides, every idempotency key that is committed names an order.
pub record IsConsistent (db : Db) : Type 0 where
  pub orders : HasTotals db
  pub named : All (λ r. r.order_id ≢ none) db.idempotency_keys

insert_items-All :
    (P : OrderItem → Type 0) (id : ℕ) (lines : List PricedLine) (table table' : List OrderItem)
    (next next' : ℕ)
    → insert_items id lines table next ≡ (ok tt, table', next')
    → ((n : ℕ) (l : PricedLine) → P (item_row n id l))
    → All P table
    → All P table'
unfolding insert_items
insert_items-All P id [] table table' next next' h new old = subst (All P) (ground arith) old
insert_items-All P id (l ∷ lines) table table' next next' h new old =
    insert_items-All P id lines (table ++ item_row next id l ∷ []) table' (suc next) next'
      (ground arith) new (All-append P table (item_row next id l ∷ []) old (new next l, tt))

-- No line of the table belongs to an order that is still to come.
lines_total_fresh :
    (o : ℕ) (table : List OrderItem) → All (λ i. i.order_id < o) table → lines_total o table ≡ 0
unfolding sum_by
lines_total_fresh o [] h = refl
lines_total_fresh o (i ∷ table) h = ground (arith, lines_total_fresh o table h.1)

bound-named :
    (k f : Text) (id : ℕ) (keys : List IdempotencyKey)
    → All (λ r. r.order_id ≢ none) keys
    → All
        (λ r. r.order_id ≢ none)
        (bound (some k) id (keys ++ (record { key = k; fingerprint = f; order_id = none }) ∷ []))
bound-named k f id [] h = ground (arith, text_eq_refl k)
bound-named k f id (r ∷ keys) h = (ground arith, bound-named k f id keys h.1)

module _ (host : Host) (input : CheckoutInput) (clock : Clock) where
  committed-totals :
      (db : Db) (t : Trace)
      → HasTotals db
      → Succeeds input db t
      → All
          (λ o. o.total ≡ lines_total o.id t.items)
          (db.orders ++ order_row db.seq.order input.buyer_id t.reserved.total clock.now ∷ [])
  unfolding sum_by
  committed-totals db t c s =
      All-append _ db.orders _
        (All-imp (λ o. (o.id < db.seq.order) × (o.total ≡ lines_total o.id db.order_items)) _
          db.orders
          (λ o h.
            let (_, grown) =
              insert_items-sold 0 o.id db.seq.order t.reserved.lines db.order_items t.items
                db.seq.order_item t.next_item s.inserts in
            ground (arith, grown, h.0, h.1))
          (All-both _ _ db.orders c.fresh_orders c.totals))
        (total_of_lines, tt)
    where
      total_of_lines : t.reserved.total ≡ lines_total db.seq.order t.items
      total_of_lines = ground (
        arith,
        (insert_items-sold 0 db.seq.order db.seq.order t.reserved.lines db.order_items t.items
            db.seq.order_item t.next_item s.inserts).1,
        (reserve_lines-Reserves 0 input.items (no_lines db) t.reserved c.keys.products
            s.reserves).value,
        lines_total_fresh db.seq.order db.order_items c.fresh_items,
      )

  committed-HasTotals :
      (key : Option Text) (db : Db) (t : Trace)
      → HasTotals db
      → Succeeds input db t
      → HasTotals (committed host input clock key db t)
  committed-HasTotals key db t c s = record {
    keys = (committed-Conserves host input clock 0 0 key db t c.keys s).keys;
    distinct_orders =
        Distinct-snoc (λ (o : Order). o.id) _ db.orders
          (All-imp (λ (o : Order). o.id < db.seq.order) (λ (o : Order). o.id ≢ db.seq.order)
            db.orders (λ o h e. omega (arith, h, e)) c.fresh_orders)
          c.distinct_orders;
    fresh_orders =
        All-append _ db.orders _
          (All-imp (λ o. o.id < db.seq.order) _ db.orders (λ o h. omega arith) c.fresh_orders)
          (omega arith, tt);
    fresh_items =
        insert_items-All _ db.seq.order t.reserved.lines db.order_items t.items db.seq.order_item
          t.next_item s.inserts (λ n l. omega arith)
          (All-imp (λ i. i.order_id < db.seq.order) _ db.order_items (λ i h. omega arith)
            c.fresh_items);
    totals = committed-totals db t c s;
  }

  claim_committed-HasTotals :
      (key : Option Text) (db : Db) (t : Trace)
      → HasTotals db
      → Succeeds input (claimed key input db) t
      → HasTotals (committed host input clock key (claimed key input db) t)
  claim_committed-HasTotals none db t c s = committed-HasTotals none db t c s
  claim_committed-HasTotals (some k) db t c s =
      committed-HasTotals (some k) (claimed (some k) input db) t
        (record {
          keys = record { products = c.keys.products; users = c.keys.users };
          distinct_orders = c.distinct_orders;
          fresh_orders = c.fresh_orders;
          fresh_items = c.fresh_items;
          totals = c.totals;
        })
        s

  claim_committed-named :
      (key : Option Text) (db : Db) (t : Trace)
      → All (λ r. r.order_id ≢ none) db.idempotency_keys
      → All
          (λ r. r.order_id ≢ none)
          (committed host input clock key (claimed key input db) t).idempotency_keys
  claim_committed-named none db t h = h
  claim_committed-named (some k) db t h = bound-named k _ db.seq.order db.idempotency_keys h

  -- A call keeps the database consistent, also where it throws and only the sequences move.
  pub checkout-IsConsistent :
      (db : Db) → IsConsistent db → IsConsistent (checkout host input clock db).1
  checkout-IsConsistent db c =
      checkout_cases host input clock IsConsistent db
        (λ s grown. record {
          orders = record {
            keys = record { products = c.orders.keys.products; users = c.orders.keys.users };
            distinct_orders = c.orders.distinct_orders;
            fresh_orders =
                All-imp (λ o. o.id < db.seq.order) _ db.orders (λ o h. omega arith)
                  c.orders.fresh_orders;
            fresh_items =
                All-imp (λ i. i.order_id < db.seq.order) _ db.order_items (λ i h. omega arith)
                  c.orders.fresh_items;
            totals = c.orders.totals;
          };
          named = c.named;
        })
        (λ t s _. record {
          orders = claim_committed-HasTotals (trimmed_key input.idempotency_key) db t c.orders s;
          named = claim_committed-named (trimmed_key input.idempotency_key) db t c.named;
        })
