-- ===== src/Orders/Publish.antt =====
-- orders/order-events.service.ts: the numbering of the status events and the trimming of the log.
use course_project.Base.{
  ℕ, zero, suc, ltb, leb, ◌==◌, not, ◌&&◌, Option, none, some, List, [], ◌∷◌, ◌++◌, filter,
  if◌then◌else◌, Result, ok, err,
}
use course_project.Db.Rows.{Db, OrderStatus, OrderStatusRow, int4_max}
use course_project.Orders.Events.{OrderStatusEvent}

-- `BUFFER_LIMIT`
abbrev pub buffer_limit : ℕ
buffer_limit = 100

-- The database's error 22003, for an `event_id` that is no int4.
pub data PublishError : Type 0 where
  event_id_out_of_range : PublishError

-- `SELECT event_id FROM order_status_events WHERE order_id = $1`
abbrev pub ids_of : ℕ → List OrderStatusRow → List ℕ
ids_of order_id [] = []
ids_of order_id (row ∷ rows) =
    if row.order_id == order_id then row.event_id ∷ ids_of order_id rows else ids_of order_id rows

-- `coalesce(max(event_id), 0)`
unfoldable pub max_of : List ℕ → ℕ
max_of [] = 0
max_of (id ∷ ids) = let rest = max_of ids in if ltb rest id then id else rest

-- `ORDER BY event_id DESC`
unfoldable pub insert_desc : ℕ → List ℕ → List ℕ
insert_desc id [] = id ∷ []
insert_desc id (j ∷ ids) =
    let rest = insert_desc id ids in if leb j id then id ∷ j ∷ ids else j ∷ rest

unfoldable pub order_desc : List ℕ → List ℕ
order_desc [] = []
order_desc (id ∷ ids) = insert_desc id (order_desc ids)

-- `OFFSET $2 LIMIT 1`
abbrev pub nth : ℕ → List ℕ → Option ℕ
nth n [] = none
nth zero (x ∷ xs) = some x
nth (suc n) (x ∷ xs) = nth n xs

-- `DELETE … WHERE order_id = $1 AND event_id <= (SELECT …)`; with no such row the bound is null and
-- nothing is deleted.
abbrev pub drop_up_to : ℕ → Option ℕ → List OrderStatusRow → List OrderStatusRow
drop_up_to order_id none table = table
drop_up_to order_id (some last) table =
    filter (λ (r : OrderStatusRow). not (r.order_id == order_id && leb r.event_id last)) table

unfoldable pub trim_log : ℕ → List OrderStatusRow → List OrderStatusRow
trim_log order_id table =
    drop_up_to order_id (nth buffer_limit (order_desc (ids_of order_id table))) table

abbrev pub status_row : ℕ → ℕ → OrderStatus → OrderStatusRow
status_row order_id event_id status = record {
  order_id = order_id;
  event_id = event_id;
  status = status;
}

-- The transaction of `publish` on its table, and the event that is sent to the listeners.
unfoldable pub publish_rows :
    ℕ
    → OrderStatus
    → List OrderStatusRow
    → Result PublishError OrderStatusEvent × List OrderStatusRow
unfolding trim_log
publish_rows order_id status table =
    let event_id = suc (max_of (ids_of order_id table)) in
    if ltb int4_max event_id then (err event_id_out_of_range, table) else (
      ok (record { id = event_id; order_id = order_id; status = status }),
      trim_log order_id (table ++ status_row order_id event_id status ∷ []),
    )

unfoldable pub publish : ℕ → OrderStatus → Db → Result PublishError OrderStatusEvent × Db
publish order_id status db =
    let (r, table) = publish_rows order_id status db.order_status_events in
    (r, record db { order_status_events = table })
