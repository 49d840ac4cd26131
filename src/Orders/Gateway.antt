-- ===== src/Orders/Gateway.antt =====
-- orders/orders.gateway.ts: who is let into the room of an order, and who gets its events.
use course_project.Base.{
  ℕ, ◌==◌, Bool, ◌&&◌, Option, none, some, List, [], ◌∷◌, ◌++◌, any, filter, map, if◌then◌else◌,
}
use course_project.Base.Text.{Text, codes, text_eq, decimal}
use course_project.Js.{Json, get_field, fields_of, to_number, integer_from, Host}
use course_project.Db.Rows.{Order}
use course_project.Orders.Events.{OrderStatusEvent, owner_id}

-- `OrderEventsService.room`
abbrev pub room_of : ℕ → Text
room_of order_id = codes "orders:" ++ decimal order_id

-- A socket that is in a room.
pub record Member : Type 0 where
  pub client : ℕ
  pub room : Text

pub data JoinReply : Type 0 where
  refused : JoinReply
  joined : Text → JoinReply

-- `value?.name`
abbrev pub field_of : Text → Option Json → Option Json
field_of name none = none
field_of name (some value) = elim (fields_of value) [ none ↦ none | some fs ↦ get_field name fs ]

abbrev pub is_in : ℕ → Text → List Member → Bool
is_in client room = any λ m. m.client == client && text_eq m.room room

-- `client.join(room)`: the rooms of a socket are a set
unfoldable pub enter : ℕ → Text → List Member → List Member
enter client room members =
    if is_in client room members
    then members
    else members ++ (record { client = client; room = room }) ∷ []

-- `server.to(room(event.orderId)).emit(…)`: the sockets that are sent the event
unfoldable pub recipients : OrderStatusEvent → List Member → List ℕ
recipients event members =
    map (λ (m : Member). m.client)
      (filter (λ (m : Member). text_eq m.room (room_of event.order_id)) members)

-- A message `join`: the socket, its handshake's `auth`, the body, and the orders at that time.
pub record JoinCall : Type 0 where
  pub client : ℕ
  pub auth : Option Json
  pub body : Option Json
  pub orders : List Order

module _ (host : Host) where
  -- `Number(value?.name)`, if it is an integer of at least 1
  abbrev pub id_field : Text → Option Json → Option ℕ
  id_field name value = integer_from 1 (to_number host (field_of name value))

  abbrev pub admit : ℕ → ℕ → ℕ → Option ℕ → List Member → JoinReply × List Member
  admit client order_id user_id none members = (refused, members)
  admit client order_id user_id (some owner) members =
      if owner == user_id
      then (joined (room_of order_id), enter client (room_of order_id) members)
      else (refused, members)

  abbrev pub join_as : JoinCall → Option ℕ → Option ℕ → List Member → JoinReply × List Member
  join_as call none user members = (refused, members)
  join_as call (some order_id) none members = (refused, members)
  join_as call (some order_id) (some user_id) members =
      admit call.client order_id user_id (owner_id order_id call.orders) members

  unfoldable pub join : JoinCall → List Member → JoinReply × List Member
  join call =
      join_as call (id_field (codes "orderId") call.body) (id_field (codes "userId") call.auth)
