-- ===== src/Checkout/Written.antt =====
-- checkout.ts: the three ways in which a call ends, and every row that it writes.
use course_project.Base.{
  ℕ, ◌+◌, ◌≡◌, ◌⊎◌, ◌==◌, refl, sym, ap, subst, ◌∙◌, true, if◌then◌else◌, Option, none, some, List,
  [], ◌∷◌, ◌++◌, map, Result, ok, err, arith, inl, inr, Result-cases,
}
use course_project.Base.Int.{pos}
use course_project.Base.Tables.{sum_by}
use course_project.Base.Text.{Text, codes, text_eq_refl}
use course_project.Js.{Host, num, obj, end, field, int}
use course_project.Db.Rows.{Db, OutboxRow, paid, status_text, IdempotencyKey}
use course_project.Broker.Event.{order_placed_event, order_placed_type, event_json}
use course_project.Checkout.Conservation.{HasKeys}
use course_project.Checkout.Measures.{stock_of, requested, balance_of, amount}
use course_project.Checkout.Outcome.{
  no_lines, outbox_row, claimed, bound, IsFree, Trace, Succeeds, committed, Replays, checkout-eq-ok,
  checkout-rolls_back,
}
use course_project.Checkout.Priced.{
  bought, total_of, item_rows, reserve_lines-bought, insert_items-item_rows, amount-bought,
}
use course_project.Checkout.Run.{order_row, checkout, insert_items, occurred_at}
use course_project.Checkout.StepLaws.{reserve_lines-Reserves, debit-balance}
use course_project.Checkout.Steps.{
  CheckoutError, CheckoutInput, Clock, Placed, trimmed_key, or_empty, find_key,
}

-- The keys with the one of the call, bound to its order.
abbrev pub keys_with : Option Text → Text → ℕ → List IdempotencyKey → List IdempotencyKey
keys_with none fingerprint id keys = keys
keys_with (some k) fingerprint id keys =
    keys ++ (record { key = k; fingerprint = fingerprint; order_id = some id }) ∷ []

-- What a call that places an order writes, by the request and the tables before it.
pub record Written (host : Host) (input : CheckoutInput) (clock : Clock) (db : Db) (p : Placed)
    (after : Db) : Type 0 where
  pub free : IsFree (trimmed_key input.idempotency_key) db
  pub placed : p ≡ record { order_id = db.seq.order; created = true }
  pub orders :
      after.orders
      ≡ db.orders
        ++ (record {
          id = db.seq.order;
          buyer_id = input.buyer_id;
          status = paid;
          total = total_of db.products input.items;
          created_at = clock.now;
        })
          ∷ []
  pub items :
      after.order_items
      ≡ db.order_items ++ item_rows db.seq.order db.seq.order_item db.products input.items
  pub jobs :
      after.jobs
      ≡ db.jobs
        ++ (record {
          id = db.seq.job;
          kind = codes "receipt";
          payload = obj (field (codes "orderId") (num (int (pos db.seq.order))) end);
          processed = 0;
          attempts = 0;
          worker_id = none;
        })
          ∷ []
  pub outbox :
      after.outbox
      ≡ db.outbox
        ++ (record {
          id = db.seq.outbox;
          aggregate_type = codes "order";
          aggregate_id = db.seq.order;
          type = order_placed_type;
          payload = event_json (
              order_placed_event db.seq.order input.buyer_id
                (total_of db.products input.items)
                (status_text paid)
                (occurred_at host clock));
          created_at = clock.now;
          published_at = none;
          attempts = 0;
        })
          ∷ []
  pub keys :
      after.idempotency_keys
      ≡ keys_with
          (trimmed_key input.idempotency_key)
          (or_empty input.fingerprint)
          db.seq.order
          db.idempotency_keys
  pub stock : (q : ℕ) → stock_of q after.products + requested q input.items ≡ stock_of q db.products
  pub balance :
      (b : ℕ)
      → balance_of b after.users
          + (if input.buyer_id == b then total_of db.products input.items else 0)
        ≡ balance_of b db.users

bound-keys_with :
    (k f : Text) (id : ℕ) (keys : List IdempotencyKey)
    → find_key k keys ≡ none
    → bound (some k) id (keys ++ (record { key = k; fingerprint = f; order_id = none }) ∷ [])
      ≡ keys_with (some k) f id keys
bound-keys_with k f id [] h = ground (arith, text_eq_refl k)
bound-keys_with k f id (r ∷ keys) h = ground (arith, bound-keys_with k f id keys)

module _ (input : CheckoutInput) (db : Db) (t : Trace) (k : HasKeys db)
    (s : Succeeds input db t) where
  trace-lines : t.reserved.lines ≡ map (bought db.products) input.items
  trace-lines =
      reserve_lines-bought db.products input.items (no_lines db) t.reserved k.products (λ id. refl)
        s.reserves

  trace-total : t.reserved.total ≡ total_of db.products input.items
  unfolding sum_by
  trace-total =
      let value =
        (reserve_lines-Reserves 0 input.items (no_lines db) t.reserved k.products
          s.reserves).value in
      omega (arith, value, ap amount trace-lines ∙ amount-bought db.products input.items)

  trace-items :
      t.items ≡ db.order_items ++ item_rows db.seq.order db.seq.order_item db.products input.items
  trace-items =
      insert_items-item_rows db.products db.seq.order input.items db.order_items t.items
        db.seq.order_item t.next_item
        (subst
          (λ lines.
            insert_items db.seq.order lines db.order_items db.seq.order_item
            ≡ (ok tt, t.items, t.next_item))
          trace-lines s.inserts)

  trace-stock :
      (q : ℕ) → stock_of q t.reserved.products + requested q input.items ≡ stock_of q db.products
  unfolding sum_by
  trace-stock q =
      let r = reserve_lines-Reserves q input.items (no_lines db) t.reserved k.products s.reserves in
      omega (arith, r.stock, r.quantity)

  trace-balance :
      (b : ℕ)
      → balance_of b t.users + (if input.buyer_id == b then total_of db.products input.items else 0)
        ≡ balance_of b db.users
  trace-balance b =
      subst
        (λ total.
          balance_of b t.users + (if input.buyer_id == b then total else 0) ≡ balance_of b db.users)
        trace-total
        (debit-balance b input.buyer_id t.reserved.total db.users t.users k.users s.pays).1

module _ (host : Host) (input : CheckoutInput) (clock : Clock) (db : Db) where
  -- The call throws and leaves every table as it was.
  abbrev pub IsRefused : Result CheckoutError Placed → Db → Type 0
  IsRefused r after = (e : CheckoutError) × (r ≡ err e) × (after ≡ record db { seq = after.seq })

  -- The call returns the order that its key is bound to, and changes nothing.
  abbrev pub IsReplayed : Result CheckoutError Placed → Db → Type 0
  IsReplayed r after =
      (p : Placed) × (r ≡ ok p)
      × Replays host input clock (trimmed_key input.idempotency_key) db after p

  -- The call places an order.
  abbrev pub IsWritten : Result CheckoutError Placed → Db → Type 0
  IsWritten r after = (p : Placed) × (r ≡ ok p) × Written host input clock db p after

module _ (host : Host) (input : CheckoutInput) (clock : Clock) (db : Db) (k : HasKeys db) where
  abbrev event_row : ℕ → OutboxRow
  event_row total =
      outbox_row db.seq.outbox db.seq.order
        (order_placed_event db.seq.order input.buyer_id total (status_text paid)
          (occurred_at host clock))
        clock.now

  -- The start is `db` itself, or `db` with the key claimed.
  committed-Written :
      (key : Option Text) (t : Trace)
      → trimmed_key input.idempotency_key ≡ key
      → IsFree key db
      → Succeeds input (claimed key input db) t
      → Written host input clock db
          (record { order_id = db.seq.order; created = true })
          (committed host input clock key (claimed key input db) t)
  committed-Written none t same free s = record {
    free = subst (λ j. IsFree j db) (sym same) free;
    placed = refl;
    orders =
        ap (λ n. db.orders ++ order_row db.seq.order input.buyer_id n clock.now ∷ [])
          (trace-total input db t k s);
    items = trace-items input db t k s;
    jobs = refl;
    outbox = ap (λ n. db.outbox ++ event_row n ∷ []) (trace-total input db t k s);
    keys =
        ap (λ j. keys_with j (or_empty input.fingerprint) db.seq.order db.idempotency_keys)
          (sym same);
    stock = trace-stock input db t k s;
    balance = trace-balance input db t k s;
  }
  committed-Written (some j) t same free s =
      let start = claimed (some j) input db in
      let keyed : HasKeys start = record { products = k.products; users = k.users } in
      record {
        free = subst (λ j. IsFree j db) (sym same) free;
        placed = refl;
        orders =
            ap (λ n. db.orders ++ order_row db.seq.order input.buyer_id n clock.now ∷ [])
              (trace-total input start t keyed s);
        items = trace-items input start t keyed s;
        jobs = refl;
        outbox = ap (λ n. db.outbox ++ event_row n ∷ []) (trace-total input start t keyed s);
        keys =
            bound-keys_with j (or_empty input.fingerprint) db.seq.order db.idempotency_keys free
            ∙ ap (λ j. keys_with j (or_empty input.fingerprint) db.seq.order db.idempotency_keys)
                (sym same);
        stock = trace-stock input start t keyed s;
        balance = trace-balance input start t keyed s;
      }

  -- If products and users have distinct ids, a call of `checkout` throws and leaves every table as
  -- it was; or returns, not created, the order that its key is bound to for the same fingerprint,
  -- and changes nothing; or its key is free and it places an order: it appends the order with the
  -- value of the lines at the products' prices, one item for each line of the request in their
  -- order, one job, one outbox row with the event and the bound key, takes the quantities from the
  -- stock and the total from the buyer's balance.
  pub checkout_outcome :
      let (r, after) = checkout host input clock db in
      IsRefused host input clock db r after
      ⊎ IsReplayed host input clock db r after
      ⊎ IsWritten host input clock db r after
  checkout_outcome =
      let out = checkout host input clock db in
      elim (Result-cases out.0) [
        | inl (e, x) ↦
            inl (e, x, checkout-rolls_back host input clock db out.1 e (ap (λ r. (r, out.1)) x))
        | inr (p, x) ↦
            elim (checkout-eq-ok host input clock db out.1 p (ap (λ r. (r, out.1)) x)).1 [
              | inl old ↦ inr (inl (p, x, old))
              | inr (t, s, free, new, same) ↦ inr (
                  inr (
                    p,
                    x,
                    subst (λ q. Written host input clock db q out.1) (sym new)
                        (subst
                          (Written host input clock db
                            (record { order_id = db.seq.order; created = true }))
                          (sym same)
                          (committed-Written (trimmed_key input.idempotency_key) t refl free s)),
                  ))
            ]
      ]
