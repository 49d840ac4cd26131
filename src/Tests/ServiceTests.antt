-- ===== src/Tests/ServiceTests.antt =====
-- Orders over HTTP, their logs and their rooms.
use course_project.Base.{◌++◌, ℕ, ◌≡◌, ◌≢◌, refl, none, some, List, [], ◌∷◌, Result, ok, arith}
use course_project.Base.Text.{codes, text_eq, decimal}
use course_project.Js.{null, num, obj, field, end, int, to_number}
use course_project.Base.Int.{pos}
use course_project.Db.Rows.{Db, Order, OrderStatus, OrderStatusRow}
use course_project.Checkout.Steps.{reserve_lines, reserve_line, debit}
use course_project.Checkout.Run.{
  checkout, checkout_tx, place_order, claim_key, reserve, pay, save_order, save_job, insert_outbox,
  bind_key, insert_items,
}
use course_project.Checkout.Consistency.{IsConsistent}
use course_project.Orders.Events.{OrderStatusEvent}
use course_project.Orders.Publish.{publish_rows}
use course_project.Orders.Log.{IsLog, rows_of, publish_rows-IsLog}
use course_project.Orders.Service.{
  HttpOrder, CreateOrderDto, ServiceError, create, find_one, update_status, to_http, find_order,
}
use course_project.Orders.Reads.{items_total, create-total}
use course_project.Orders.Update.{update_status-IsLog}
use course_project.Orders.Gateway.{JoinCall, recipients, join, enter}
use course_project.Orders.Rooms.{join_all, Admitted, recipients-Admitted}
use course_project.Tests.Fixtures.{host, clock, shop, shop-IsConsistent}

abbrev dto : CreateOrderDto
dto = record { buyer_id = 2; items = (record { product_id = 7; quantity = 2 }) ∷ []; json = null }

bought : Result ServiceError HttpOrder × Db
unfolding create find_one checkout checkout_tx place_order claim_key reserve pay save_order save_job
    insert_outbox bind_key insert_items reserve_lines reserve_line debit text_eq decimal
bought = create host dto none clock shop

abbrev order : HttpOrder
order = record {
  id = 1;
  buyer_id = 2;
  items = (record { product_id = 7; quantity = 2; unit_price_cents = 100 }) ∷ [];
  total_cents = 200;
  status = OrderStatus.paid;
  created_at = codes "2026-10-27T00:00:00.000Z";
}

bought_order : bought.0 ≡ ok order
unfolding bought
bought_order = refl

create-total_example : IsConsistent bought.1 × (order.total_cents ≡ items_total order.items)
unfolding bought
create-total_example = create-total host dto none clock shop bought.1 order shop-IsConsistent refl

abbrev too_many : CreateOrderDto
too_many = record dto { items = (record { product_id = 7; quantity = 5 }) ∷ [] }

-- The log of order 12 holds the events 3 and 4.
abbrev log : List OrderStatusRow
log =
    (record { order_id = 12; event_id = 3; status = OrderStatus.paid })
    ∷ (record { order_id = 12; event_id = 4; status = OrderStatus.shipped })
    ∷ []

log-IsLog : IsLog 12 3 2 log
log-IsLog = (refl, omega arith, omega arith, λ e. absurd (omega (arith, e)))

-- Its rows after the event 5
abbrev three_rows : List OrderStatusRow
three_rows = log ++ (record { order_id = 12; event_id = 5; status = OrderStatus.cancelled }) ∷ []

publish_rows-IsLog_example :
    let (r, after) = publish_rows 12 OrderStatus.cancelled log in
    (r ≡ ok (record { id = 5; order_id = 12; status = OrderStatus.cancelled }))
    × IsLog 12 3 3 after
    × (rows_of 12 after ≡ three_rows)
    × ((q : ℕ) → q ≢ 12 → rows_of q after ≡ rows_of q log)
publish_rows-IsLog_example =
    publish_rows-IsLog 12 OrderStatus.cancelled log 3 2 log-IsLog (omega arith)

abbrev stored : Order
stored = record { id = 12; buyer_id = 2; status = OrderStatus.paid; total = 200; created_at = 50 }

abbrev stored_db : Db
stored_db = record shop { orders = stored ∷ []; order_status_events = log }

update_status-IsLog_example :
    let (r, after) = update_status host 12 OrderStatus.cancelled stored_db in
    (r ≡ ok (to_http host [] (record stored { status = OrderStatus.cancelled })))
    × (find_order 12 after.orders ≡ some (record stored { status = OrderStatus.cancelled }))
    × IsLog 12 3 3 after.order_status_events
    × (rows_of 12 after.order_status_events ≡ three_rows)
    × ((q : ℕ) → q ≢ 12 → rows_of q after.order_status_events ≡ rows_of q log)
update_status-IsLog_example =
    update_status-IsLog host 12 3 2 OrderStatus.cancelled stored stored_db refl log-IsLog
      (omega arith)

abbrev call : JoinCall
call = record {
  client = 4;
  auth = some (obj (field (codes "userId") (num (int (pos 2))) end));
  body = some (obj (field (codes "orderId") (num (int (pos 12))) end));
  orders = stored ∷ [];
}

abbrev event : OrderStatusEvent
event = record { id = 5; order_id = 12; status = OrderStatus.cancelled }

recipients-Admitted_example : Admitted host 4 12 (call ∷ [])
unfolding recipients join_all join enter to_number decimal text_eq
recipients-Admitted_example = recipients-Admitted host 4 event (call ∷ []) refl
