-- ===== src/Broker/Event/Laws.antt =====
-- The event's identity, its round trip through the message body, and what the parser accepts.
use course_project.Base.{ℕ, ◌≡◌, ap, some, ◌∷◌, ok, arith}
use course_project.Base.Text.{Text, text_eq, decimal-injective}
use course_project.Js.{Host, to_number}
use course_project.Broker.Event.{
  OrderPlacedEvent, event_id_of, event_json, parse_data, parse_order_placed, IsWellFormed,
}

-- The text behind the 13 characters of `order.placed:`.
abbrev after_prefix : Text → Text
after_prefix (_ ∷ _ ∷ _ ∷ _ ∷ _ ∷ _ ∷ _ ∷ _ ∷ _ ∷ _ ∷ _ ∷ _ ∷ _ ∷ s) = s
after_prefix s = s

-- Two orders have the same event id only if they are the same order.
event_id_of-injective : (m n : ℕ) → event_id_of m ≡ event_id_of n → m ≡ n
unfolding event_id_of
event_id_of-injective m n h = decimal-injective m n (ap after_prefix h)

module _ (host : Host) where
  -- An event with a text, an event id and positive ids is read back from the body that is
  -- published for it, if `JSON.parse` inverts `JSON.stringify` on it.
  pub parse-event_json :
      (e : OrderPlacedEvent)
      → host.parse (host.stringify (event_json e)) ≡ some (event_json e)
      → IsWellFormed e
      → parse_order_placed host (host.stringify (event_json e)) ≡ ok e
  unfolding parse_order_placed parse_data event_json to_number text_eq
  parse-event_json e codec w = ground (arith, w.has_event_id, w.has_occurred_at)

  -- Whatever the body, an event that the parser returns has non-empty texts and positive ids.
  parse-IsWellFormed :
      (body : host.Body) (e : OrderPlacedEvent)
      → parse_order_placed host body ≡ ok e
      → IsWellFormed e
  unfolding parse_order_placed parse_data
  parse-IsWellFormed body e h = ground arith
