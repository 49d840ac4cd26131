-- ===== src/Broker/Effects/Once.antt =====
-- A redelivered event applies nothing.
use course_project.Base.{
  ℕ, ◌+◌, ◌≤◌, ◌≡◌, refl, Bool, true, false, ◌||◌, if◌then◌else◌, List, [], ◌∷◌, ◌++◌, filter,
  length, Result, ok, err, arith,
}
use course_project.Base.Text.{Text, text_eq, text_eq_iff, text_eq_refl}
use course_project.Db.Rows.{Db, OrderPlacedEffect, OrderPlacedDelivery, ProcessedMessage}
use course_project.Broker.Event.{OrderPlacedEvent}
use course_project.Broker.Effects.{
  Applied, applied, skipped, Outage, order_placed_consumer, is_processed, has_effect,
  record_delivery, mark_processed, insert_effect, apply_tx, apply_order_placed, count_effects,
  count_deliveries,
}

-- The effects are those of the messages marked as processed, one for each event id.
pub record IsExact (db : Db) : Type 0 where
  pub mirrored :
      (id : Text) → has_effect id db.order_placed_effects ≡ is_processed id db.processed_messages
  pub once : (id : Text) → count_effects id db ≤ 1

effect_row : Text → ℕ → OrderPlacedEffect
effect_row id order_id = record { event_id = id; order_id = order_id }

has_effect-append :
    (id id' : Text) (o : ℕ) (es : List OrderPlacedEffect)
    → has_effect id (es ++ (record { event_id = id'; order_id = o }) ∷ [])
      ≡ (has_effect id es || text_eq id' id)
has_effect-append id id' o [] = ground arith
has_effect-append id id' o (e ∷ es) = ground (arith, has_effect-append id id' o es)

pub is_processed-append :
    (id id' : Text) (ms : List ProcessedMessage)
    → is_processed id (ms ++ (record { message_id = id'; consumer = order_placed_consumer }) ∷ [])
      ≡ (is_processed id ms || text_eq id' id)
is_processed-append id id' [] = ground (arith, text_eq_refl order_placed_consumer)
is_processed-append id id' (m ∷ ms) = ground (arith, is_processed-append id id' ms)

pub count_effects-append :
    (id id' : Text) (o : ℕ) (es : List OrderPlacedEffect)
    → length (
        filter
          (λ (e : OrderPlacedEffect). text_eq e.event_id id)
          (es ++ (record { event_id = id'; order_id = o }) ∷ []))
      ≡ length (filter (λ (e : OrderPlacedEffect). text_eq e.event_id id) es)
        + (if text_eq id' id then 1 else 0)
count_effects-append id id' o [] = ground arith
count_effects-append id id' o (e ∷ es) = ground (arith, count_effects-append id id' o es)

-- No effect, no row to count.
count_effects-absent :
    (id : Text) (es : List OrderPlacedEffect)
    → has_effect id es ≡ false
    → length (filter (λ (e : OrderPlacedEffect). text_eq e.event_id id) es) ≡ 0
count_effects-absent id [] h = refl
count_effects-absent id (e ∷ es) h = ground (arith, count_effects-absent id es)

count_effects-present :
    (id : Text) (es : List OrderPlacedEffect)
    → has_effect id es ≡ true
    → 1 ≤ length (filter (λ (e : OrderPlacedEffect). text_eq e.event_id id) es)
count_effects-present id [] h = cc
count_effects-present id (e ∷ es) h = ground (arith, count_effects-present id es)

module _ (fails : Bool) (event : OrderPlacedEvent) where
  pub apply-IsExact : (db : Db) → IsExact db → IsExact (apply_order_placed fails event db).1
  unfolding apply_order_placed apply_tx record_delivery mark_processed insert_effect
  apply-IsExact db x = record {
    mirrored = λ id. ground (
      arith,
      x.mirrored id,
      x.mirrored event.event_id,
      has_effect-append id event.event_id event.payload.order_id db.order_placed_effects,
      is_processed-append id event.event_id db.processed_messages,
    );
    once = λ id. ground (
      arith,
      x.once id,
      text_eq_iff event.event_id id,
      count_effects-absent id db.order_placed_effects,
      count_effects-append id event.event_id event.payload.order_id db.order_placed_effects,
    );
  }

-- What one delivery of `event` did, by whether the environment broke its transaction.
abbrev pub Delivers : Bool → OrderPlacedEvent → Db → Result Outage Applied → Db → Type 0
Delivers true event db r db' = (r ≡ err Outage.outage) × (db' ≡ record db { seq = db'.seq })
Delivers false event db r db' =
    (r ≡ ok (if is_processed event.event_id db.processed_messages then skipped else applied))
    × (count_effects event.event_id db' ≡ 1)
    × (count_deliveries event.event_id db' ≡ count_deliveries event.event_id db + 1)
    × (is_processed event.event_id db.processed_messages ≡ true
        → db'.order_placed_effects ≡ db.order_placed_effects)

pub count_deliveries-append :
    (id : Text) (n : ℕ) (ds : List OrderPlacedDelivery)
    → length (
        filter
          (λ (d : OrderPlacedDelivery). text_eq d.event_id id)
          (ds ++ (record { id = n; event_id = id }) ∷ []))
      ≡ length (filter (λ (d : OrderPlacedDelivery). text_eq d.event_id id) ds) + 1
count_deliveries-append id n [] = ground (arith, text_eq_refl id)
count_deliveries-append id n (d ∷ ds) = ground (arith, count_deliveries-append id n ds)

-- On an exact log, a delivery that commits adds its delivery row and leaves exactly one effect for
-- its event id: 'applied' if the id was not processed before, and otherwise 'skipped', with the
-- effects as they were. A delivery that breaks throws and leaves every table as it was.
pub apply_order_placed-Delivers :
    (fails : Bool) (event : OrderPlacedEvent) (db : Db)
    → IsExact db
    → Delivers fails event db
        (apply_order_placed fails event db).0
        (apply_order_placed fails event db).1
unfolding apply_order_placed apply_tx record_delivery mark_processed insert_effect
apply_order_placed-Delivers true event db x = (ground arith, ground arith)
apply_order_placed-Delivers false event db x = (
  ground arith,
  ground (
    arith,
    x.mirrored event.event_id,
    x.once event.event_id,
    text_eq_refl event.event_id,
    count_effects-absent event.event_id db.order_placed_effects,
    count_effects-present event.event_id db.order_placed_effects,
    count_effects-append event.event_id event.event_id event.payload.order_id
        db.order_placed_effects,
  ),
  ground (arith, count_deliveries-append event.event_id db.seq.delivery db.order_placed_deliveries),
  λ seen. ground (arith, seen),
)

-- An effect that is there stays, whatever is delivered.
pub apply-count_effects :
    (fails : Bool) (event : OrderPlacedEvent) (db : Db) (id : Text)
    → count_effects id db ≤ count_effects id (apply_order_placed fails event db).1
unfolding apply_order_placed apply_tx record_delivery mark_processed insert_effect
apply-count_effects fails event db id =
    ground
      (arith, count_effects-append id event.event_id event.payload.order_id db.order_placed_effects)
