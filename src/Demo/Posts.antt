-- ===== src/Demo/Posts.antt =====
-- demo-outbox.ts: the two requests of the demo, from a database that is ready for it.
use course_project.Base.{
  ℕ, ◌+◌, ◌≤◌, ◌<◌, ◌≡◌, refl, ap, sym, subst, ◌∙◌, ◌==◌, true, false, Option, none, some, List, [],
  ◌∷◌, ◌++◌, find, any, ok, arith, All, Bool-cases, ==_iff, inl, inr,
}
use course_project.Base.Text.{Text, codes, text_eq_refl, trim, decimal}
use course_project.Broker.Effects.Once.{IsExact}
use course_project.Broker.Effects.{is_processed, count_deliveries}
use course_project.Broker.Event.{event_id_of}
use course_project.Checkout.Outcome.{claimed, Trace, committed}
use course_project.Checkout.Run.{checkout, order_row}
use course_project.Checkout.Steps.{CheckoutInput, Clock, trimmed_key, find_key, payable}
use course_project.Db.Rows.{Db, User, Order, OrderItem, OutboxRow}
use course_project.Demo.Flow.{demo_key, order_id_of, on_handled, on_reply, post_order, demo_dto}
use course_project.Demo.Place.{
  IsStocked, checkout-ok, stocked-IsOffered, one_line_trace, one_line-Succeeds,
}
use course_project.Demo.{Fixture}
use course_project.Idempotency.{
  key_ttl, Records, Reply, in_flight, IdemRecord, replayed, get, set, sweep, complete, handle,
  intercept,
}
use course_project.Idempotency.Replies.{handle-complete}
use course_project.Js.{Host}
use course_project.Orders.Service.{
  HttpOrder, CreateOrderDto, find_order, to_http, find_one, checkout_input, created, create,
  create_order,
}

-- The key is free, its buyer can pay, its product is on sale, and the next order has left
-- no trace.
pub record IsReady (key : Text) (fixture : Fixture) (db : Db) : Type 0 where
  pub free : find_key key db.idempotency_keys ≡ none
  pub rich : any (payable fixture.buyer_id 100) db.users ≡ true
  pub stocked : IsStocked fixture.product_id db.products
  pub new_orders : All (λ (o : Order). o.id < db.seq.order) db.orders
  pub new_items : All (λ (i : OrderItem). i.order_id < db.seq.order) db.order_items
  pub new_outbox : All (λ (r : OutboxRow). r.aggregate_id < db.seq.order) db.outbox
  pub new_delivery : count_deliveries (event_id_of db.seq.order) db ≡ 0
  pub new_message : is_processed (event_id_of db.seq.order) db.processed_messages ≡ false
  pub exact : IsExact db
  pub order_id : 1 ≤ db.seq.order
  pub buyer_id : 1 ≤ fixture.buyer_id

demo_key-trimmed : trimmed_key (some demo_key) ≡ some demo_key
unfolding trim
demo_key-trimmed = refl

find-payable :
    (id total : ℕ) (users : List User)
    → any (payable id total) users ≡ true
    → (u : User) × (find (λ (v : User). v.id == id) users ≡ some u) × (u.id ≡ id)
find-payable id total [] h = absurd (ground (arith, h))
find-payable id total (u ∷ users) h = elim (Bool-cases (u.id == id)) [
  | inl same ↦ (u, ground (arith, same), (==_iff u.id id).0 same)
  | inr other ↦
      let (v, found, e) = find-payable id total users (ground (arith, h, other)) in
      (v, ground (arith, other, found), e)
]

find_order-new :
    (row : Order) (orders : List Order)
    → All (λ (o : Order). o.id < row.id) orders
    → find_order row.id (orders ++ row ∷ []) ≡ some row
find_order-new row [] new = ground arith
find_order-new row (o ∷ orders) new = ground (arith, new.0, find_order-new row orders new.1)

module _ (host : Host) (clock : Clock) where
  -- What the first request leaves behind.
  pub record IsPlaced (fixture : Fixture) (db : Db) (order : HttpOrder) (after : Db) : Type 0 where
    pub input : CheckoutInput
    pub trace : Trace
    pub id : order.id ≡ db.seq.order
    pub buyer : input.buyer_id ≡ fixture.buyer_id
    pub total : trace.reserved.total ≡ 100
    pub commits :
        after ≡ committed host input clock (some demo_key) (claimed (some demo_key) input db) trace

  create_by :
      (u : User) (dto : CreateOrderDto) (db : Db)
      → find (λ (v : User). v.id == dto.buyer_id) db.users ≡ some u
      → create host dto (some demo_key) clock db
        ≡ created host (checkout host (checkout_input host dto (some demo_key) u) clock db)
  unfolding create
  create_by u dto db found = rw (found, create) refl

  find_one-some :
      (row : Order) (db : Db)
      → find_order row.id db.orders ≡ some row
      → find_one host row.id db ≡ (ok (to_http host db.order_items row), db)
  unfolding find_one
  find_one-some row db found = rw (found, find_one) refl

  pub create-IsPlaced :
      (fixture : Fixture) (db : Db)
      → IsReady demo_key fixture db
      → (order : HttpOrder) × (after : Db) × (create host
            (demo_dto fixture)
            (some demo_key)
            clock
            db
          ≡ (ok order, after))
        × IsPlaced fixture db order after
  create-IsPlaced fixture db r =
      let (u, found, same) = find-payable fixture.buyer_id 100 db.users r.rich in
      let input = checkout_input host (demo_dto fixture) (some demo_key) u in
      let start = claimed (some demo_key) input db in
      let t = one_line_trace input.buyer_id fixture.product_id 100 start in
      let s =
        one_line-Succeeds input fixture.product_id 100 start refl
          (stocked-IsOffered fixture.product_id db.products r.stocked)
          (subst (λ b. any (payable b 100) db.users ≡ true) (sym same) r.rich) (omega arith)
          r.new_items in
      let after = committed host input clock (some demo_key) (claimed (some demo_key) input db) t in
      let row = order_row db.seq.order u.id t.reserved.total clock.now in
      let done =
        checkout-ok host input clock demo_key db t refl refl
          (ap trimmed_key demo_key-trimmed ∙ demo_key-trimmed) r.free s in
      let found_again = find_one-some row after (find_order-new row db.orders r.new_orders) in
      (
        to_http host after.order_items row,
        after,
        create_by u (demo_dto fixture) db found ∙ ap (created host) done ∙ found_again,
        record { input = input; trace = t; id = refl; buyer = same; total = refl; commits = refl },
      )

module _ (host : Host) where
  create_order-ok :
      (clock : Clock) (dto : CreateOrderDto) (db after : Db) (order : HttpOrder)
      → create host dto (some demo_key) clock db ≡ (ok order, after)
      → create_order host dto (some demo_key) clock db
        ≡ (ok (order, codes "/orders/" ++ decimal order.id), after)
  unfolding create_order
  create_order-ok clock dto db after order placed = ground (arith, placed)

  pub first_reply :
      (t : ℕ) (clock : Clock) (dto : CreateOrderDto) (db after : Db) (order : HttpOrder)
      → create host dto (some demo_key) clock db ≡ (ok order, after)
      → (records : Records HttpOrder) × (post_order host t clock demo_key dto
            (record { records = []; db = db })
          ≡ (
            ok order.id,
            record {
              records = complete demo_key (host.sha256 dto.json) (t + key_ttl) (some order) records;
              db = after;
            },
          ))
  unfolding post_order intercept handle sweep get set create_order
  first_reply t clock dto db after order placed =
      let claim : IdemRecord HttpOrder = record {
        state = in_flight;
        fingerprint = host.sha256 dto.json;
        expires_at = t + key_ttl;
        body = none;
      } in
      (
        set demo_key claim [],
        ap (on_handled demo_key (host.sha256 dto.json) t (set demo_key claim []))
            (create_order-ok clock dto db after order placed),
      )

  on_reply-replayed :
      (u : ℕ) (clock : Clock) (dto : CreateOrderDto) (db : Db) (order : HttpOrder) (l : Option ℕ)
      (r : Reply HttpOrder × Records HttpOrder)
      → r.0 ≡ replayed (some order) l
      → on_reply host u clock demo_key dto db r ≡ (ok order.id, record { records = r.1; db = db })
  on_reply-replayed u clock dto db order l r h =
      ap (λ (q : Reply HttpOrder). on_reply host u clock demo_key dto db (q, r.1)) h

  -- While the key lives, the second request is answered with the order of the first.
  pub second_reply :
      (u expires_at : ℕ) (clock : Clock) (dto : CreateOrderDto) (db : Db) (order : HttpOrder)
      (records : Records HttpOrder)
      → u < expires_at
      → (records' : Records HttpOrder) × (post_order host u clock demo_key dto (record {
        records = complete demo_key (host.sha256 dto.json) expires_at (some order) records;
        db = db;
      })
          ≡ (ok order.id, record { records = records'; db = db }))
  unfolding post_order intercept
  second_reply u expires_at clock dto db order records live = (
    _,
    on_reply-replayed u clock dto db order (some order.id)
        (handle order_id_of u demo_key (host.sha256 dto.json)
          (complete demo_key (host.sha256 dto.json) expires_at (some order) records))
        (handle-complete order_id_of records demo_key (host.sha256 dto.json) (host.sha256 dto.json)
            expires_at u (some order) [] tt live
          ∙ ground (arith, text_eq_refl (host.sha256 dto.json))),
  )
