-- ===== src/Orders/Rooms.antt =====
-- orders/orders.gateway.ts: only owners are in the rooms.
use course_project.Base.{
  ℕ, ◌≡◌, ◌⊎◌, sym, ap, ◌∙◌, ◌==◌, Bool, true, ◌&&◌, some, List, [], ◌∷◌, any, any-append, arith,
  Bool-cases, Option-cases, inl, inr,
}
use course_project.Base.Text.{Text, codes, text_eq, text_eq_iff, decimal-injective}
use course_project.Js.{Host}
use course_project.Orders.Events.{OrderStatusEvent, owner_id}
use course_project.Orders.Gateway.{
  room_of, Member, JoinReply, is_in, enter, recipients, JoinCall, id_field, admit, join_as, join,
}

room_of-injective : (m n : ℕ) → room_of m ≡ room_of n → m ≡ n
room_of-injective m n h = decimal-injective m n (ground (arith, h))

is_in-enter :
    (c d : ℕ) (r s : Text) (members : List Member)
    → is_in c r (enter d s members) ≡ true
    → (is_in c r members ≡ true) ⊎ ((d ≡ c) × (s ≡ r))
unfolding enter
is_in-enter c d r s members h = elim (Bool-cases (is_in d s members)) [
  | inl inside ↦ inl (ground (arith, h, inside))
  | inr outside ↦
      let entered : Member = record { client = d; room = s } in
      elim (Bool-cases (d == c && text_eq s r)) [
        | inl this ↦ inr (ground (arith, this), ground (arith, this, text_eq_iff s r))
        | inr other ↦ inl (
            ground (
              arith,
              h,
              outside,
              other,
              any-append (λ m. m.client == c && text_eq m.room r) members (entered ∷ []),
            ))
      ]
]

is_in-recipients :
    (client : ℕ) (event : OrderStatusEvent) (members : List Member)
    → any (λ c. c == client) (recipients event members) ≡ true
    → is_in client (room_of event.order_id) members ≡ true
unfolding recipients
is_in-recipients client event [] h = h
is_in-recipients client event (m ∷ members) h =
    ground (arith, is_in-recipients client event members)

-- Socket `client` asked to join order `id`, as the owner of the order.
abbrev pub Owns : (host : Host) → ℕ → ℕ → JoinCall → Type 0
Owns host client id call =
    (call.client ≡ client)
    × (id_field host (codes "orderId") call.body ≡ some id)
    × ((user : ℕ) × (id_field host (codes "userId") call.auth ≡ some user)
        × (owner_id id call.orders ≡ some user))

module _ (host : Host) where
  -- The rooms after some messages `join`.
  unfoldable pub join_all : List JoinCall → List Member → List Member
  join_all [] members = members
  join_all (call ∷ calls) members = join_all calls (join host call members).1

  abbrev pub Admitted : ℕ → ℕ → List JoinCall → Type 0
  Admitted client id [] = ⊥
  Admitted client id (call ∷ calls) = Owns host client id call ⊎ Admitted client id calls

  join-Owns :
      (client id : ℕ) (call : JoinCall) (members : List Member)
      → is_in client (room_of id) (join host call members).1 ≡ true
      → (is_in client (room_of id) members ≡ true) ⊎ Owns host client id call
  unfolding join
  join-Owns client id call members h =
      elim (Option-cases (id_field host (codes "orderId") call.body)) [
        | inl no_order ↦ inl (ground (arith, h, no_order))
        | inr (order_id, asked) ↦ elim (Option-cases (id_field host (codes "userId") call.auth)) [
          | inl no_user ↦ inl (ground (arith, h, asked, no_user))
          | inr (user, known) ↦ admitted order_id user asked known (
              sym (
                ap
                  (λ o.
                    inside (join_as host call o (id_field host (codes "userId") call.auth) members))
                  asked
                ∙ ap (λ u. inside (join_as host call (some order_id) u members)) known)
              ∙ h)
        ]
      ]
    where
      inside : JoinReply × List Member → Bool
      inside out = is_in client (room_of id) out.1

      admitted :
          (order_id user : ℕ)
          → id_field host (codes "orderId") call.body ≡ some order_id
          → id_field host (codes "userId") call.auth ≡ some user
          → is_in client
              (room_of id)
              (admit host call.client order_id user (owner_id order_id call.orders) members).1
            ≡ true
          → (is_in client (room_of id) members ≡ true) ⊎ Owns host client id call
      admitted order_id user asked known h' = elim (Option-cases (owner_id order_id call.orders)) [
        | inl missing ↦ inl (ground (arith, h', missing))
        | inr (owner, owned) ↦ elim (Bool-cases (owner == user)) [
          | inl same ↦
              elim (is_in-enter client call.client (room_of id) (room_of order_id) members
                (ground (arith, h', owned, same))) [
                  | inl before ↦ inl before
                  | inr (this, room) ↦
                      let one : order_id ≡ id = room_of-injective order_id id room in
                      inr (
                        this,
                        ground (arith, asked, one),
                        (
                          user,
                          known,
                          ap (λ o. owner_id o call.orders) (sym one) ∙ ground (arith, owned, same),
                        ),
                      )
                ]
          | inr other ↦ inl (ground (arith, h', owned, other))
        ]
      ]

  join_all-Admitted :
      (client id : ℕ) (calls : List JoinCall) (members : List Member)
      → is_in client (room_of id) (join_all calls members) ≡ true
      → (is_in client (room_of id) members ≡ true) ⊎ Admitted client id calls
  unfolding join_all
  join_all-Admitted client id [] members h = inl h
  join_all-Admitted client id (call ∷ calls) members h =
      elim (join_all-Admitted client id calls (join host call members).1 h) [
        | inl before ↦ elim (join-Owns client id call members before) [
          | inl old ↦ inl old
          | inr now ↦ inr (inl now)
        ]
        | inr later ↦ inr (inr later)
      ]

  -- A socket is sent an event of an order only if one of its messages `join` was for that order and
  -- from the user who owned the order.
  pub recipients-Admitted :
      (client : ℕ) (event : OrderStatusEvent) (calls : List JoinCall)
      → any (λ c. c == client) (recipients event (join_all calls [])) ≡ true
      → Admitted client event.order_id calls
  recipients-Admitted client event calls h =
      elim (join_all-Admitted client event.order_id calls [] (is_in-recipients client event _ h)) [
        | inl before ↦ absurd (ground (arith, before))
        | inr admitted ↦ admitted
      ]
