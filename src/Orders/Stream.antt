-- ===== src/Orders/Stream.antt =====
-- orders/orders.controller.ts: what a listener of an order's events is sent.
use course_project.Base.{
  ℕ, ltb, any, ◌≡◌, ap, ◌∙◌, true, false, Option, some, List, [], ◌++◌, ok, arith,
}
use mathlib.Core.List.{append_assoc}
use course_project.Base.Int.{ℤ}
use course_project.Base.Text.{Text}
use course_project.Js.{Host, integer_from}
use course_project.Db.Rows.{Order, OrderStatusRow}
use course_project.Orders.Events.{
  OrderStatusEvent, is_above, int4_of, since, stream, write_all, owner_id, header_number,
  last_event_id, events,
}
use course_project.Orders.Write.{has_event, IsIncreasing, write_all-IsIncreasing, write_all-hides}
use course_project.Orders.Since.{is_logged, IsSent, since-IsSent}

module _ (host : Host) (orders : List Order) (log : List OrderStatusRow) (id user : ℕ)
    (user_header last_header : Option Text) (last : ℤ)
    (known : integer_from 1 (header_number host user_header) ≡ some user)
    (owns : owner_id id orders ≡ some user)
    (resumes : int4_of (last_event_id host last_header) ≡ ok last) where
  events-eq :
      (early late : List OrderStatusEvent)
      → events host orders log id user_header last_header early late
        ≡ ok (write_all last (stream id early ++ since id last log ++ stream id late))
  unfolding events
  events-eq early late = ground (arith, known, owns, resumes)

  -- The owner of an order who asks for its events with a good `Last-Event-ID`, or none, is sent a
  -- stream in which every event has a greater id than the one before it, the first one a greater id
  -- than the `Last-Event-ID`, whatever live events arrive before and after the answer of the log.
  pub events-IsIncreasing :
      (early late : List OrderStatusEvent)
      → (sent : List OrderStatusEvent) × (events host orders log id user_header last_header early
            late
          ≡ ok sent)
        × IsIncreasing last sent
  events-IsIncreasing early late = (_, events-eq early late, write_all-IsIncreasing last _)

  -- If no live event arrives while the log is read, the owner of an order who asks for its events
  -- with a good `Last-Event-ID`, or none, is sent every logged event of the order that is behind it,
  -- with the status that the log has for it.
  pub events_complete :
      (late : List OrderStatusEvent)
      → (sent : List OrderStatusEvent) × (events host orders log id user_header last_header [] late
          ≡ ok sent)
        × ((event_id : ℕ)
            → is_above last event_id ≡ true
            → is_logged id event_id log ≡ true
            → IsSent id event_id log sent)
  events_complete late = (
    _,
    events-eq [] late,
    λ event_id above logged. since-IsSent id event_id last log (stream id late) above logged,
  )

  -- If a live event of the order arrives while the log is read, then the owner of the order who
  -- asks for its events with a good `Last-Event-ID`, or none, is sent no event with a smaller id,
  -- unless this came as a live event while the log was read, too; whatever is in the log.
  pub events-early_hides :
      (event_id : ℕ) (early late : List OrderStatusEvent)
      → any (λ (e : OrderStatusEvent). ltb event_id e.id) (stream id early) ≡ true
      → has_event event_id (stream id early) ≡ false
      → (sent : List OrderStatusEvent) × (events host orders log id user_header last_header early
            late
          ≡ ok sent)
        × (has_event event_id sent ≡ false)
  events-early_hides event_id early late greater absent = (
    _,
    events-eq early late,
    ap (λ es. has_event event_id (write_all last es))
          (append_assoc (stream id early) (since id last log) (stream id late))
        ∙ write_all-hides last event_id (stream id early) (since id last log ++ stream id late)
            greater absent,
  )
