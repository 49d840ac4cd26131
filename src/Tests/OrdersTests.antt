-- ===== src/Tests/OrdersTests.antt =====
-- Listeners of an order.
use course_project.Base.{ℕ, ◌≡◌, refl, true, false, some, List, [], ◌∷◌, ok, Option}
use course_project.Base.Int.{pos}
use course_project.Base.Text.{Text}
use course_project.Js.{Host, int, to_number}
use course_project.Db.Rows.{Order, OrderStatus, OrderStatusRow}
use course_project.Orders.Events.{
  OrderStatusEvent, is_above, events, since, insert_by_event_id, order_by_event_id, write_all,
}
use course_project.Orders.Write.{has_event, IsIncreasing}
use course_project.Orders.Since.{is_logged, IsSent}
use course_project.Orders.Stream.{events-IsIncreasing, events_complete, events-early_hides}
use course_project.Tests.Fixtures.{host}

-- Its texts are numbers by their first character, which is enough for `2` and `3`.
abbrev digits : Host
digits = record host {
  number_of_text = λ t. elim t [
    | [] ↦ int (pos 0)
    | c ∷ cs ↦ elim cs [ [] ↦ int (pos c) | d ∷ ds ↦ int (pos 0) ]
  ];
}

abbrev order : Order
order = record { id = 12; buyer_id = 2; status = OrderStatus.paid; total = 200; created_at = 50 }

abbrev log : List OrderStatusRow
log =
    (record { order_id = 12; event_id = 4; status = OrderStatus.shipped })
    ∷ (record { order_id = 12; event_id = 3; status = OrderStatus.paid })
    ∷ (record { order_id = 11; event_id = 9; status = OrderStatus.paid })
    ∷ []

abbrev fifth : OrderStatusEvent
fifth = record { id = 5; order_id = 12; status = OrderStatus.cancelled }

-- The user 2, with the event 2 as the last one.
abbrev header : Option Text
header = some (2 ∷ [])

replayed_then_live :
    events digits (order ∷ []) log 12 header header [] (fifth ∷ [])
    ≡ ok (
        (record { id = 3; order_id = 12; status = OrderStatus.paid })
        ∷ (record { id = 4; order_id = 12; status = OrderStatus.shipped })
        ∷ fifth
        ∷ [])
unfolding events since insert_by_event_id order_by_event_id write_all to_number
replayed_then_live = refl

-- The same event, but while the log is read: events 3 and 4 are lost.
live_before_replay :
    events digits (order ∷ []) log 12 header header (fifth ∷ []) [] ≡ ok (fifth ∷ [])
unfolding events since insert_by_event_id order_by_event_id write_all to_number
live_before_replay = refl

events-IsIncreasing_example :
    (sent : List OrderStatusEvent) × (events digits
        (order ∷ [])
        log
        12
        header
        header
        (fifth ∷ [])
        (fifth ∷ [])
      ≡ ok sent)
    × IsIncreasing (pos 2) sent
unfolding to_number
events-IsIncreasing_example =
    events-IsIncreasing digits (order ∷ []) log 12 2 header header (pos 2) refl refl refl
      (fifth ∷ []) (fifth ∷ [])

events_complete_example :
    (sent : List OrderStatusEvent) × (events digits
        (order ∷ [])
        log
        12
        header
        header
        []
        (fifth ∷ [])
      ≡ ok sent)
    × ((event_id : ℕ)
        → is_above (pos 2) event_id ≡ true
        → is_logged 12 event_id log ≡ true
        → IsSent 12 event_id log sent)
unfolding to_number
events_complete_example =
    events_complete digits (order ∷ []) log 12 2 header header (pos 2) refl refl refl (fifth ∷ [])

-- The events 5 and 6 come while the log is read, and event 4 of the log is not sent.
abbrev sixth : OrderStatusEvent
sixth = record { id = 6; order_id = 12; status = OrderStatus.cancelled }

events-early_hides_example :
    (sent : List OrderStatusEvent) × (events digits
        (order ∷ [])
        log
        12
        header
        header
        (fifth ∷ sixth ∷ [])
        []
      ≡ ok sent)
    × (has_event 4 sent ≡ false)
unfolding to_number
events-early_hides_example =
    events-early_hides digits (order ∷ []) log 12 2 header header (pos 2) refl refl refl 4
      (fifth ∷ sixth ∷ []) [] refl refl
