-- ===== src/Tests/BrokerTests.antt =====
-- Events, effects and deliveries.
use course_project.Base.{◌≡◌, refl, true, false, none, some, List, [], ◌∷◌, ok, err, arith}
use course_project.Base.Text.{codes, text_eq, decimal}
use course_project.Js.{Json, to_number}
use course_project.Broker.Event.{
  BadEvent, IsWellFormed, event_id_of, event_json, parse_data, parse_order_placed,
}
use course_project.Broker.Event.Laws.{parse-event_json}
use course_project.Broker.Effects.{
  apply_order_placed, apply_tx, record_delivery, mark_processed, insert_effect,
}
use course_project.Broker.Effects.Once.{IsExact}
use course_project.Broker.Consumer.{
  Options, Consumer, Message, ack, reject, requeue, silence, handle, attach, fresh, Verdict,
}
use course_project.Broker.Consumer.Exact.{Acks, attach-Acks}
use course_project.Tests.Fixtures.{host, shop, event}

event_id_of-decimal : event_id_of 12 ≡ codes "order.placed:12"
unfolding event_id_of decimal
event_id_of-decimal = refl

event-IsWellFormed : IsWellFormed event
event-IsWellFormed = record {
  has_event_id = λ e. cc;
  has_occurred_at = λ e. cc;
  has_order_id = omega arith;
  has_buyer_id = omega arith;
}

parse-event_json_example : parse_order_placed host (some (event_json event)) ≡ ok event
parse-event_json_example = parse-event_json host event refl event-IsWellFormed

-- `42` is JSON and no object.
not_an_object_refused : parse_order_placed host (some (Json.bool true)) ≡ err BadEvent.not_an_object
unfolding parse_order_placed
not_an_object_refused = refl

shop-IsExact : IsExact shop
shop-IsExact = record { mirrored = λ id. refl; once = λ id. omega arith }

abbrev opts : Options
opts = record { crash_before_ack = false; stop_after = none }

abbrev delivery : Message host
delivery = record { body = some (event_json event); fails = false }

-- A delivery, bytes that are no JSON, the same event again, an outage, and a message behind it.
abbrev deliveries : List (Message host)
deliveries =
    delivery
    ∷ (record { body = none; fails = false })
    ∷ delivery
    ∷ (record delivery { fails = true })
    ∷ delivery
    ∷ []

running : Consumer
unfolding attach handle parse_order_placed parse_data to_number apply_order_placed apply_tx
    record_delivery mark_processed insert_effect event_json text_eq
running = attach host opts deliveries (fresh shop)

deliveries_verdicts : running.verdicts ≡ ack ∷ reject ∷ ack ∷ requeue ∷ silence ∷ []
unfolding running
deliveries_verdicts = refl

attach-Acks_example :
    let c' = attach host opts deliveries (fresh shop) in
    IsExact c'.db × ((vs : List Verdict) × (c'.verdicts ≡ vs) × Acks host opts deliveries vs c'.db)
attach-Acks_example = attach-Acks host opts deliveries (fresh shop) shop-IsExact
