-- ===== src/Broker/Event.antt =====
-- broker/order-placed.ts: the `order.placed` event, its construction and its parser.
pub mod Laws
use course_project.Base.{
  ℕ, ◌≤◌, ◌≡◌, ◌≢◌, Bool, Option, none, some, List, [], ◌∷◌, ◌++◌, Result, ok, err, ◌>>=◌, ◌>>◌,
  require, or_throw, not,
}
use course_project.Base.Int.{pos}
use course_project.Base.Text.{Text, codes, text_eq, truthy, decimal}
use course_project.Js.{
  Json, num, str, obj, Fields, end, field, Number, int, integer_from, get_field, fields_of, text_of,
  Host, to_number,
}

pub record OrderPlacedData : Type 0 where
  pub order_id : ℕ
  pub buyer_id : ℕ
  pub total_cents : ℕ
  pub status : Text

-- The `type` field is the constant 'order.placed' of the TypeScript type.
pub record OrderPlacedEvent : Type 0 where
  pub event_id : Text
  pub occurred_at : Text
  pub payload : OrderPlacedData

-- `BadEvent`, by its detail
pub data BadEvent : Type 0 where
  not_json not_an_object not_order_placed event_id_missing occurred_at_missing : BadEvent
  data_missing order_id_missing buyer_id_missing total_cents_missing : BadEvent

abbrev pub order_placed_type : Text
order_placed_type = codes "order.placed"

-- `order.placed:${orderId}`
unfoldable pub event_id_of : ℕ → Text
event_id_of order_id = codes "order.placed:" ++ decimal order_id

unfoldable pub order_placed_event : ℕ → ℕ → ℕ → Text → Text → OrderPlacedEvent
order_placed_event order_id buyer_id total_cents status occurred_at = record {
  event_id = event_id_of order_id;
  occurred_at = occurred_at;
  payload = record {
    order_id = order_id;
    buyer_id = buyer_id;
    total_cents = total_cents;
    status = status;
  };
}

-- The event as the object that `JSON.stringify` is given.
unfoldable pub event_json : OrderPlacedEvent → Json
event_json e = obj (
    field (codes "eventId") (str e.event_id) (
      field (codes "type") (str order_placed_type) (
        field (codes "occurredAt") (str e.occurred_at) (
          field (codes "data")
            (obj (
              field (codes "orderId") (num (int (pos e.payload.order_id))) (
                field (codes "buyerId") (num (int (pos e.payload.buyer_id))) (
                  field (codes "totalCents") (num (int (pos e.payload.total_cents)))
                    (field (codes "status") (str e.payload.status) end)))))
            end))))

-- `typeof value !== 'string' || value.length < 1` throws
abbrev non_empty_text : Option Json → BadEvent → Result BadEvent Text
non_empty_text v e = do t ← or_throw (text_of v) e; require (truthy t) e; ok t

abbrev is_type : Option Json → Bool
is_type v = elim (text_of v) [ none ↦ Bool.false | some t ↦ text_eq t order_placed_type ]

-- `typeof fields.status === 'string' ? fields.status : 'paid'`
abbrev status_or_paid : Option Text → Text
status_or_paid none = codes "paid"
status_or_paid (some t) = t

module _ (host : Host) where
  unfoldable pub parse_data : Fields → Result BadEvent OrderPlacedData
  parse_data fields = do
    order_id ←
        or_throw (integer_from 1 (to_number host (get_field (codes "orderId") fields)))
          order_id_missing
    buyer_id ←
        or_throw (integer_from 1 (to_number host (get_field (codes "buyerId") fields)))
          buyer_id_missing
    total_cents ←
        or_throw (integer_from 0 (to_number host (get_field (codes "totalCents") fields)))
          total_cents_missing
    ok (record {
      order_id = order_id;
      buyer_id = buyer_id;
      total_cents = total_cents;
      status = status_or_paid (text_of (get_field (codes "status") fields));
    })

  unfoldable pub parse_order_placed : host.Body → Result BadEvent OrderPlacedEvent
  parse_order_placed body = do
    raw ← or_throw (host.parse body) not_json
    fields ← or_throw (fields_of raw) not_an_object
    require (is_type (get_field (codes "type") fields)) not_order_placed
    event_id ← non_empty_text (get_field (codes "eventId") fields) event_id_missing
    occurred_at ← non_empty_text (get_field (codes "occurredAt") fields) occurred_at_missing
    inner ← or_throw (get_field (codes "data") fields) data_missing
    data_fields ← or_throw (fields_of inner) data_missing
    payload ← parse_data data_fields
    ok (record { event_id = event_id; occurred_at = occurred_at; payload = payload })

-- What a parsed event guarantees.
pub record IsWellFormed (e : OrderPlacedEvent) : Type 0 where
  pub has_event_id : e.event_id ≢ []
  pub has_occurred_at : e.occurred_at ≢ []
  pub has_order_id : 1 ≤ e.payload.order_id
  pub has_buyer_id : 1 ≤ e.payload.buyer_id
