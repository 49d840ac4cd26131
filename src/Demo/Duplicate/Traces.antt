-- ===== src/Demo/Duplicate/Traces.antt =====
-- broker/effects.ts: the traces of one event, behind the deletes and behind a delivery.
use course_project.Base.{
  ◌+◌, ◌≡◌, refl, ap, ◌∙◌, true, false, not, List, [], ◌∷◌, filter, length, arith, Bool-cases, inl,
  inr,
}
use course_project.Base.Text.{Text, text_eq, text_eq_refl, text_eq_iff}
use course_project.Broker.Effects.Once.{count_effects-append, count_deliveries-append}
use course_project.Broker.Effects.{
  apply_order_placed, apply_tx, record_delivery, mark_processed, insert_effect, is_processed,
  has_effect, count_effects, count_deliveries, is_like, demo_prefix,
}
use course_project.Broker.Event.{OrderPlacedEvent}
use course_project.Db.Rows.{Db, OrderPlacedEffect, OrderPlacedDelivery}
use course_project.Db.Tx.{transaction}

-- No row of a demo is left behind the deletes.
pub no_effects :
    (id : Text) (es : List OrderPlacedEffect)
    → is_like demo_prefix id ≡ true
    → length (
        filter
          (λ (e : OrderPlacedEffect). text_eq e.event_id id)
          (filter (λ (e : OrderPlacedEffect). not (is_like demo_prefix e.event_id)) es))
      ≡ 0
no_effects id [] like = refl
no_effects id (e ∷ es) like = elim (Bool-cases (text_eq e.event_id id)) [
  | inl same ↦
      let liked : is_like demo_prefix e.event_id ≡ true =
        ap (is_like demo_prefix) ((text_eq_iff e.event_id id).0 same) ∙ like in
      ground (arith, liked, no_effects id es like)
  | inr other ↦ ground (arith, other, no_effects id es like)
]

pub no_deliveries :
    (id : Text) (ds : List OrderPlacedDelivery)
    → is_like demo_prefix id ≡ true
    → length (
        filter
          (λ (d : OrderPlacedDelivery). text_eq d.event_id id)
          (filter (λ (d : OrderPlacedDelivery). not (is_like demo_prefix d.event_id)) ds))
      ≡ 0
no_deliveries id [] like = refl
no_deliveries id (d ∷ ds) like = elim (Bool-cases (text_eq d.event_id id)) [
  | inl same ↦
      let liked : is_like demo_prefix d.event_id ≡ true =
        ap (is_like demo_prefix) ((text_eq_iff d.event_id id).0 same) ∙ like in
      ground (arith, liked, no_deliveries id ds like)
  | inr other ↦ ground (arith, other, no_deliveries id ds like)
]

pub no_effect :
    (id : Text) (es : List OrderPlacedEffect)
    → length (filter (λ (e : OrderPlacedEffect). text_eq e.event_id id) es) ≡ 0
    → has_effect id es ≡ false
no_effect id [] none_there = refl
no_effect id (e ∷ es) none_there = ground (arith, none_there, no_effect id es)

module _ (e : OrderPlacedEvent) (db : Db) where
  pub apply-first :
      is_processed e.event_id db.processed_messages ≡ false
      → count_effects e.event_id db ≡ 0
      → count_effects e.event_id (apply_order_placed false e db).1 ≡ 1
  unfolding apply_order_placed apply_tx record_delivery mark_processed insert_effect transaction
  apply-first new nothing = ground (
    arith,
    new,
    nothing,
    no_effect e.event_id db.order_placed_effects nothing,
    count_effects-append e.event_id e.event_id e.payload.order_id db.order_placed_effects,
    text_eq_refl e.event_id,
  )

  pub apply-again :
      is_processed e.event_id db.processed_messages ≡ true
      → (apply_order_placed false e db).1.order_placed_effects ≡ db.order_placed_effects
  unfolding apply_order_placed apply_tx record_delivery mark_processed insert_effect transaction
  apply-again seen = ground (arith, seen)

  pub apply-delivered :
      count_deliveries e.event_id (apply_order_placed false e db).1
      ≡ count_deliveries e.event_id db + 1
  unfolding apply_order_placed apply_tx record_delivery mark_processed insert_effect transaction
  apply-delivered =
      ground (arith, count_deliveries-append e.event_id db.seq.delivery db.order_placed_deliveries)
