-- ===== src/Orders/Events.antt =====
-- orders/order-events.service.ts, and the handler of GET /orders/:id/events in
-- orders/orders.controller.ts.
use course_project.Base.{
  ℕ, ltb, leb, ◌==◌, Bool, true, false, ◌&&◌, Option, none, some, List, [], ◌∷◌, ◌++◌, filter, find,
  map, if◌then◌else◌, Result, ok, err, ◌>>=◌, or_throw, require,
}
use course_project.Base.Int.{ℤ, pos, negsuc}
use course_project.Base.Text.{Text, truthy}
use course_project.Js.{Number, int, nan, infinite, str, to_number, integer_from, Host}
use course_project.Db.Rows.{Order, OrderStatus, OrderStatusRow, int4_max}

pub record OrderStatusEvent : Type 0 where
  pub id : ℕ
  pub order_id : ℕ
  pub status : OrderStatus

-- What the handler throws; `bad_parameter` is the database's answer to a `Last-Event-ID` that is no
-- int4, which comes when the stream is open already.
pub data StreamError : Type 0 where
  anonymous not_found not_owner bad_parameter : StreamError

-- `ORDER BY event_id`
unfoldable pub insert_by_event_id : OrderStatusRow → List OrderStatusRow → List OrderStatusRow
insert_by_event_id row [] = row ∷ []
insert_by_event_id row (r ∷ rows) =
    let rest = insert_by_event_id row rows in
    if leb row.event_id r.event_id then row ∷ r ∷ rows else r ∷ rest

unfoldable pub order_by_event_id : List OrderStatusRow → List OrderStatusRow
order_by_event_id [] = []
order_by_event_id (row ∷ rows) = insert_by_event_id row (order_by_event_id rows)

-- `id > z`
abbrev pub is_above : ℤ → ℕ → Bool
is_above (pos n) id = ltb n id
is_above (negsuc n) id = true

abbrev pub to_event : OrderStatusRow → OrderStatusEvent
to_event row = record { id = row.event_id; order_id = row.order_id; status = row.status }

-- A number as a parameter of type int4.
abbrev pub int4_of : Number → Result StreamError ℤ
int4_of (int (pos n)) = if leb n int4_max then ok (pos n) else err bad_parameter
int4_of (int (negsuc n)) = if leb n int4_max then ok (negsuc n) else err bad_parameter
int4_of _ = err bad_parameter

unfoldable pub since : ℕ → ℤ → List OrderStatusRow → List OrderStatusEvent
since order_id last table = map to_event (
    order_by_event_id (
      filter (λ (row : OrderStatusRow). row.order_id == order_id && is_above last row.event_id)
        table))

-- `stream`: the live events of one order
abbrev pub stream : ℕ → List OrderStatusEvent → List OrderStatusEvent
stream order_id = filter (λ (event : OrderStatusEvent). event.order_id == order_id)

-- The calls of `write`, one for each event: `seen` is the closure's variable, and the result is what
-- they write to the response.
unfoldable pub write_all : ℤ → List OrderStatusEvent → List OrderStatusEvent
write_all seen [] = []
write_all seen (event ∷ events) = elim (is_above seen event.id) [
  | true ↦ event ∷ write_all (pos event.id) events
  | false ↦ write_all seen events
]

-- `ownerId`; the buyer of an order is never null
abbrev pub owner_id : ℕ → List Order → Option ℕ
owner_id id orders = elim (find (λ (o : Order). o.id == id) orders) [
  | none ↦ none
  | some o ↦ some o.buyer_id
]

module _ (host : Host) where
  abbrev pub header_number : Option Text → Number
  header_number none = nan
  header_number (some t) = to_number host (some (str t))

  -- `Number.isFinite(last) ? last : 0`
  abbrev pub finite_or_zero : Number → Number
  finite_or_zero nan = int (pos 0)
  finite_or_zero infinite = int (pos 0)
  finite_or_zero n = n

  abbrev pub last_event_id : Option Text → Number
  last_event_id none = int (pos 0)
  last_event_id (some t) = if truthy t then finite_or_zero (header_number (some t)) else int (pos 0)

  -- The handler `events`, up to the end of the connection. `early` are the live events that arrive
  -- while the query of `since` is under way, `late` those that arrive after it.
  unfoldable pub events :
      List Order
      → List OrderStatusRow
      → ℕ
      → Option Text
      → Option Text
      → List OrderStatusEvent
      → List OrderStatusEvent
      → Result StreamError (List OrderStatusEvent)
  events orders log id user_header last_header early late =
      or_throw (integer_from 1 (header_number user_header)) anonymous >>= λ user_id.
      or_throw (owner_id id orders) not_found >>= λ owner.
      require (owner == user_id) not_owner >>= λ _. int4_of (last_event_id last_header) >>= λ last.
      ok (write_all last (stream id early ++ since id last log ++ stream id late))
