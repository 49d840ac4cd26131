-- ===== src/Orders/Update.antt =====
-- orders/orders.service.ts: `updateStatus` sets the status and publishes it.
use course_project.Base.{
  ℕ, ◌≢◌, ◌++◌, ap, sym, ◌∙◌, ltb, if◌then◌else◌, ◌+◌, ◌≡◌, ◌≤◌, subst, ◌==◌, none, some, List, [],
  ◌∷◌, update, ok, err, arith,
}
use course_project.Js.{Host}
use course_project.Db.Rows.{Db, Order, OrderStatus, int4_max}
use course_project.Orders.Publish.{publish, publish_rows, buffer_limit}
use course_project.Orders.Log.{IsLog, lo_after, n_after, rows_of, without_first, publish_rows-IsLog}
use course_project.Orders.Service.{not_found, find_order, to_http, find_one, update_status}

abbrev with_status : ℕ → OrderStatus → List Order → List Order
with_status id status = update (λ (o : Order). o.id == id) (λ o. record o { status = status })

find-with_status :
    (id : ℕ) (status : OrderStatus) (row : Order) (orders : List Order)
    → find_order id orders ≡ some row
    → find_order id (with_status id status orders) ≡ some (record row { status = status })
find-with_status id status row [] h = cc
find-with_status id status row (o ∷ orders) h =
    ground (arith, find-with_status id status row orders)

module _ (host : Host) where
  -- For an order that exists, with a log of at most the limit of events numbered without gaps and a
  -- next number that is an int4, `updateStatus` returns the order with the new status, stores it so,
  -- leaves the log numbered so, and appends the event with the next number and the new status to the
  -- rows of the order, dropping the oldest row if the log was full, and to no other, whatever the old
  -- status was.
  pub update_status-IsLog :
      (id lo n : ℕ) (status : OrderStatus) (row : Order) (db : Db)
      → find_order id db.orders ≡ some row
      → IsLog id lo n db.order_status_events
      → lo + n ≤ int4_max
      → let (r, after) = update_status host id status db in
        let rows =
          rows_of id db.order_status_events
          ++ (record { order_id = id; event_id = lo + n; status = status }) ∷ [] in
        (r ≡ ok (to_http host db.order_items (record row { status = status })))
        × (find_order id after.orders ≡ some (record row { status = status }))
        × IsLog id (lo_after lo n) (n_after n) after.order_status_events
        × (rows_of id after.order_status_events
            ≡ (if ltb n buffer_limit then rows else without_first rows))
        × ((q : ℕ)
            → q ≢ id
            → rows_of q after.order_status_events ≡ rows_of q db.order_status_events)
  unfolding update_status publish find_one
  update_status-IsLog id lo n status row db found log fits =
      let (sent, kept, grown, others) =
        publish_rows-IsLog id status db.order_status_events lo n log fits in
      let after = (update_status host id status db).1 in
      let table : (publish_rows id status db.order_status_events).1 ≡ after.order_status_events =
        ground (arith, found, sent) in
      (
        ground (arith, found, sent, find-with_status id status row db.orders found),
        ground (arith, found, sent, find-with_status id status row db.orders found),
        subst (IsLog id (lo_after lo n) (n_after n)) table kept,
        ap (rows_of id) (sym table) ∙ grown,
        λ q other. ap (rows_of q) (sym table) ∙ others q other,
      )

  -- For an order that does not exist it changes nothing and throws.
  update_status_missing :
      (id : ℕ) (status : OrderStatus) (db : Db)
      → find_order id db.orders ≡ none
      → update_status host id status db ≡ (err not_found, db)
  unfolding update_status
  update_status_missing id status db missing = ground (arith, missing)
