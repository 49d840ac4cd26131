-- ===== src/Broker/Effects.antt =====
-- broker/effects.ts: the effect of an `order.placed` event, applied once for each event id.
pub mod Once
use course_project.Base.{
  ℕ, suc, ◌≡◌, ◌==◌, Bool, true, false, not, ◌&&◌, if◌then◌else◌, List, [], ◌∷◌, ◌++◌, any, filter,
  length, Result, ok, err,
}
use course_project.Base.Text.{Text, codes, text_eq}
use course_project.Db.Rows.{Db, ProcessedMessage, OrderPlacedEffect, OrderPlacedDelivery}
use course_project.Db.Tx.{Query, pure, ◌>>=◌, ◌>>◌, transaction}
use course_project.Broker.Event.{OrderPlacedEvent}

pub data Applied : Type 0 where
  applied skipped : Applied

-- The errors of the database or of the connection to it, which the transaction rethrows.
pub data Outage : Type 0 where
  outage : Outage

abbrev pub order_placed_consumer : Text
order_placed_consumer = codes "order-placed"

abbrev pub is_processed : Text → List ProcessedMessage → Bool
is_processed id =
    any (λ (m : ProcessedMessage).
      text_eq m.message_id id && text_eq m.consumer order_placed_consumer)

abbrev pub has_effect : Text → List OrderPlacedEffect → Bool
has_effect id = any (λ (e : OrderPlacedEffect). text_eq e.event_id id)

-- `INSERT INTO order_placed_deliveries (event_id)`
unfoldable pub record_delivery : Text → Query Outage (Unit {0})
record_delivery id db = (
  ok tt,
  record db {
    order_placed_deliveries =
        db.order_placed_deliveries ++ (record { id = db.seq.delivery; event_id = id }) ∷ [];
    seq = record (db.seq) { delivery = suc db.seq.delivery };
  },
)

-- `INSERT INTO processed_messages … ON CONFLICT DO NOTHING RETURNING message_id`: whether a row
-- came back.
unfoldable pub mark_processed : Text → Query Outage Bool
mark_processed id db = if is_processed id db.processed_messages then (ok false, db) else (
  ok true,
  record db {
    processed_messages =
        db.processed_messages
        ++ (record { message_id = id; consumer = order_placed_consumer }) ∷ [];
  },
)

-- `INSERT INTO order_placed_effects … ON CONFLICT (event_id) DO NOTHING`
unfoldable pub insert_effect : Text → ℕ → Query Outage (Unit {0})
insert_effect id order_id db = if has_effect id db.order_placed_effects then (ok tt, db) else (
  ok tt,
  record db {
    order_placed_effects =
        db.order_placed_effects ++ (record { event_id = id; order_id = order_id }) ∷ [];
  },
)

-- The queries of the transaction. `fails` says that the environment breaks it before the commit.
unfoldable pub apply_tx : Bool → OrderPlacedEvent → Query Outage Applied
apply_tx fails event = do
  record_delivery event.event_id
  marked ← mark_processed event.event_id
  result ←
      (if marked
        then insert_effect event.event_id event.payload.order_id >> pure applied
        else pure skipped)
  (λ db. (if fails then err outage else ok result, db))

unfoldable pub apply_order_placed : Bool → OrderPlacedEvent → Query Outage Applied
unfolding transaction
apply_order_placed fails event = transaction (apply_tx fails event)

-- `countEvents` for one whole event id, in each of its two tables.
abbrev pub count_effects : Text → Db → ℕ
count_effects id db =
    length (filter (λ (e : OrderPlacedEffect). text_eq e.event_id id) db.order_placed_effects)

abbrev pub count_deliveries : Text → Db → ℕ
count_deliveries id db =
    length (filter (λ (d : OrderPlacedDelivery). text_eq d.event_id id) db.order_placed_deliveries)

-- `LIKE 'prefix%'`, for a prefix without wildcards
unfoldable pub is_like : Text → Text → Bool
is_like [] t = true
is_like (c ∷ prefix) [] = false
is_like (c ∷ prefix) (d ∷ t) = d == c && is_like prefix t

abbrev pub demo_prefix : Text
demo_prefix = codes "demo:"

-- `deleteDemoRows`
unfoldable pub delete_demo_rows : Db → Db
unfolding is_like
delete_demo_rows db = record db {
  order_placed_deliveries =
      filter (λ (d : OrderPlacedDelivery). not (is_like demo_prefix d.event_id))
        db.order_placed_deliveries;
  order_placed_effects =
      filter (λ (e : OrderPlacedEffect). not (is_like demo_prefix e.event_id))
        db.order_placed_effects;
}
