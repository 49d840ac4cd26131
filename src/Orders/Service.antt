-- ===== src/Orders/Service.antt =====
-- orders/orders.service.ts, and the handlers of orders/orders.controller.ts that call it.
use course_project.Base.{
  ℕ, ◌==◌, false, Option, none, some, List, ◌++◌, filter, find, update, map, Result, ok, err,
}
use course_project.Base.Sort.{sort_by}
use course_project.Base.Text.{Text, codes, decimal}
use course_project.Js.{Json, Host}
use course_project.Db.Rows.{Db, User, Order, OrderItem, OrderStatus}
use course_project.Db.Tx.{Query}
use course_project.Checkout.Steps.{
  CheckoutError, bad_lines, idempotency_reuse, in_flight, crashed, rejected, database,
  unknown_product, out_of_stock, insufficient_funds, CheckoutLine, CheckoutInput, Clock, Placed,
  trimmed_key,
}
use course_project.Checkout.Run.{checkout}
use course_project.Pagination.{Base64, Page, BadCursor, paginate}
use course_project.Orders.Events.{OrderStatusEvent}
use course_project.Orders.Publish.{PublishError, publish}

-- `Order` and its items as the HTTP interface has them
pub record HttpItem : Type 0 where
  pub product_id : ℕ
  pub quantity : ℕ
  pub unit_price_cents : ℕ

pub record HttpOrder : Type 0 where
  pub id : ℕ
  pub buyer_id : ℕ
  pub items : List HttpItem
  pub total_cents : ℕ
  pub status : OrderStatus
  pub created_at : Text

-- `CreateOrderDto`; `json` is the object as `JSON.stringify` sees it.
pub record CreateOrderDto : Type 0 where
  pub buyer_id : ℕ
  pub items : List CheckoutLine
  pub json : Json

-- What the service throws: its own exceptions, and errors that it passes on.
pub data ServiceError : Type 0 where
  unknown_buyer key_reuse product_unknown insufficient_stock no_funds not_found : ServiceError
  checkout_failed : CheckoutError → ServiceError
  publish_failed : PublishError → ServiceError

-- The `catch` of `create`
abbrev pub service_error : CheckoutError → ServiceError
service_error idempotency_reuse = key_reuse
service_error (rejected unknown_product) = product_unknown
service_error (rejected out_of_stock) = insufficient_stock
service_error (rejected insufficient_funds) = no_funds
service_error bad_lines = checkout_failed bad_lines
service_error in_flight = checkout_failed in_flight
service_error crashed = checkout_failed crashed
service_error (database e) = checkout_failed (database e)

abbrev pub find_order : ℕ → List Order → Option Order
find_order id = find (λ (o : Order). o.id == id)

abbrev pub to_http_item : OrderItem → HttpItem
to_http_item item = record {
  product_id = item.product_id;
  quantity = item.quantity;
  unit_price_cents = item.unit_price;
}

module _ (host : Host) where
  -- `toHttp` on a row with its relations `buyer` and `items`
  abbrev pub to_http : List OrderItem → Order → HttpOrder
  to_http items row = record {
    id = row.id;
    buyer_id = row.buyer_id;
    items = map to_http_item (filter (λ (i : OrderItem). i.order_id == row.id) items);
    total_cents = row.total;
    status = row.status;
    created_at = host.to_iso row.created_at;
  }

  unfoldable pub find_one : ℕ → Query ServiceError HttpOrder
  find_one id db = elim (find_order id db.orders) [
    | none ↦ (err not_found, db)
    | some row ↦ (ok (to_http db.order_items row), db)
  ]

  -- `query.limit ?? 10`
  abbrev pub limit_or : Option ℕ → ℕ
  limit_or none = 10
  limit_or (some n) = n

  unfoldable pub list :
      Base64 host → Option ℕ → Option Text → Db → Result BadCursor (Page HttpOrder)
  list base64 limit cursor db =
      paginate host base64 (λ (o : HttpOrder). o.id)
        (map (to_http db.order_items) (sort_by (λ (o : Order). o.id) db.orders)) (limit_or limit)
        cursor

  abbrev pub checkout_input : CreateOrderDto → Option Text → User → CheckoutInput
  checkout_input dto idempotency_key buyer =
      let key = trimmed_key idempotency_key in
      record {
        buyer_id = buyer.id;
        items = dto.items;
        idempotency_key = key;
        fingerprint = elim key [ none ↦ none | some _ ↦ some (host.sha256 dto.json) ];
        crash_after_outbox = false;
      }

  abbrev pub created : Result CheckoutError Placed × Db → Result ServiceError HttpOrder × Db
  created (err e, db) = (err (service_error e), db)
  created (ok placed, db) = find_one placed.order_id db

  unfoldable pub create : CreateOrderDto → Option Text → Clock → Query ServiceError HttpOrder
  unfolding find_one
  create dto idempotency_key clock db = elim (find (λ (u : User). u.id == dto.buyer_id) db.users) [
    | none ↦ (err unknown_buyer, db)
    | some buyer ↦ created (checkout host (checkout_input dto idempotency_key buyer) clock db)
  ]

  abbrev pub after_publish :
      ℕ → Result PublishError OrderStatusEvent × Db → Result ServiceError HttpOrder × Db
  after_publish id (err e, db) = (err (publish_failed e), db)
  after_publish id (ok event, db) = find_one id db

  -- The row is saved before the event is published, each in a transaction of its own.
  unfoldable pub update_status : ℕ → OrderStatus → Query ServiceError HttpOrder
  unfolding find_one publish
  update_status id status db = elim (find_order id db.orders) [
    | none ↦ (err not_found, db)
    | some row ↦ after_publish id (
        publish id status (record db {
          orders = update (λ (o : Order). o.id == id) (λ o. record o { status = status }) db.orders;
        }))
  ]

  -- The controller's `create`, which adds the header `Location`
  unfoldable pub create_order :
      CreateOrderDto → Option Text → Clock → Query ServiceError (HttpOrder × Text)
  unfolding create
  create_order dto idempotency_key clock db =
      let (r, db') = create dto idempotency_key clock db in
      elim r [
        | err e ↦ (err e, db')
        | ok order ↦ (ok (order, codes "/orders/" ++ decimal order.id), db')
      ]
