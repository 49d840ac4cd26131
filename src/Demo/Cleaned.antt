-- ===== src/Demo/Cleaned.antt =====
-- outbox/demo-support.ts: `cleanup` keeps what the demo relies on.
use course_project.Base.{
  Bool-cases, inl, inr, filter, not, ℕ, ◌≤◌, ◌<◌, ◌≡◌, refl, ap, sym, ◌∙◌, ◌&&◌, Bool, false, List,
  [], ◌∷◌, any, filter, length, arith, All,
}
use course_project.Base.Text.{Text, text_eq, text_eq_iff}
use course_project.Broker.Effects.Once.{IsExact}
use course_project.Broker.Effects.{has_effect, is_processed, count_deliveries}
use course_project.Broker.Event.{event_id_of}
use course_project.Db.Rows.{
  Db, Order, OrderItem, OutboxRow, ProcessedMessage, OrderPlacedEffect, OrderPlacedDelivery,
}
use course_project.Demo.{delete_order, delete_orders}
use course_project.Js.{Json}

-- Order ids are taken from their sequence, nothing is known yet of the next order, and the effects
-- are those of the processed messages.
pub record IsSound (db : Db) : Type 0 where
  pub new_orders : All (λ (o : Order). o.id < db.seq.order) db.orders
  pub new_items : All (λ (i : OrderItem). i.order_id < db.seq.order) db.order_items
  pub new_outbox : All (λ (r : OutboxRow). r.aggregate_id < db.seq.order) db.outbox
  pub new_delivery : count_deliveries (event_id_of db.seq.order) db ≡ 0
  pub new_message : is_processed (event_id_of db.seq.order) db.processed_messages ≡ false
  pub exact : IsExact db
  pub order_id : 1 ≤ db.seq.order

All-filter {ℓ κ} :
    {A : Type ℓ} (P : A → Type κ) (p : A → Bool) (xs : List A) → All P xs → All P (filter p xs)
All-filter P p [] h = tt
All-filter P p (x ∷ xs) h = elim (Bool-cases (p x)) [
  | inl e ↦ rw e (h.0, All-filter P p xs h.1)
  | inr e ↦ rw e (All-filter P p xs h.1)
]

count-filter {ℓ} :
    {A : Type ℓ} (p q : A → Bool) (xs : List A)
    → length (filter p (filter q xs)) ≤ length (filter p xs)
count-filter p q [] = omega arith
count-filter p q (x ∷ xs) = ground (arith, count-filter p q xs)

any-filter-false {ℓ} :
    {A : Type ℓ} (p q : A → Bool) (xs : List A) → any p xs ≡ false → any p (filter q xs) ≡ false
any-filter-false p q [] h = refl
any-filter-false p q (x ∷ xs) h = ground (arith, h, any-filter-false p q xs)

-- What is left of the effects and of the messages, when those of event `e` are deleted.
has_effect-filter :
    (id e : Text) (es : List OrderPlacedEffect)
    → has_effect id (filter (λ (x : OrderPlacedEffect). not (text_eq x.event_id e)) es)
      ≡ (has_effect id es && not (text_eq id e))
has_effect-filter id e [] = refl
has_effect-filter id e (x ∷ es) = ground (
  arith,
  has_effect-filter id e es,
  text_eq_iff x.event_id e,
  text_eq_iff x.event_id id,
  text_eq_iff id e,
)

is_processed-filter :
    (id e : Text) (ms : List ProcessedMessage)
    → is_processed id (filter (λ (x : ProcessedMessage). not (text_eq x.message_id e)) ms)
      ≡ (is_processed id ms && not (text_eq id e))
is_processed-filter id e [] = refl
is_processed-filter id e (x ∷ ms) = ground (
  arith,
  is_processed-filter id e ms,
  text_eq_iff x.message_id e,
  text_eq_iff x.message_id id,
  text_eq_iff id e,
)

module _ (as_text : Json → Text) where
  delete_order-IsSound : (id : ℕ) (db : Db) → IsSound db → IsSound (delete_order as_text id db)
  unfolding delete_order
  delete_order-IsSound id db s = record {
    new_orders = All-filter (λ (o : Order). o.id < db.seq.order) _ db.orders s.new_orders;
    new_items =
        All-filter (λ (i : OrderItem). i.order_id < db.seq.order) _ db.order_items s.new_items;
    new_outbox =
        All-filter (λ (r : OutboxRow). r.aggregate_id < db.seq.order) _ db.outbox s.new_outbox;
    new_delivery = omega (
      arith,
      s.new_delivery,
      count-filter (λ (d : OrderPlacedDelivery). text_eq d.event_id (event_id_of db.seq.order))
          (λ (d : OrderPlacedDelivery). not (text_eq d.event_id (event_id_of id)))
          db.order_placed_deliveries,
    );
    new_message =
        any-filter-false _ (λ (m : ProcessedMessage). not (text_eq m.message_id (event_id_of id)))
          db.processed_messages s.new_message;
    exact = record {
      mirrored = λ j.
          has_effect-filter j (event_id_of id) db.order_placed_effects
          ∙ ap (λ b. b && not (text_eq j (event_id_of id))) (s.exact.mirrored j)
          ∙ sym (is_processed-filter j (event_id_of id) db.processed_messages);
      once = λ j. omega (
        arith,
        s.exact.once j,
        count-filter (λ (e : OrderPlacedEffect). text_eq e.event_id j)
            (λ (e : OrderPlacedEffect). not (text_eq e.event_id (event_id_of id)))
            db.order_placed_effects,
      );
    };
    order_id = s.order_id;
  }

  pub delete_orders-IsSound :
      (ids : List ℕ) (db : Db) → IsSound db → IsSound (delete_orders as_text ids db)
  unfolding delete_orders
  delete_orders-IsSound [] db s = s
  delete_orders-IsSound (id ∷ ids) db s =
      delete_orders-IsSound ids (delete_order as_text id db) (delete_order-IsSound id db s)

  -- The deletes leave users and products alone.
  pub delete_orders-keeps :
      (ids : List ℕ) (db : Db)
      → ((delete_orders as_text ids db).users ≡ db.users)
        × ((delete_orders as_text ids db).products ≡ db.products)
  unfolding delete_orders delete_order
  delete_orders-keeps [] db = (refl, refl)
  delete_orders-keeps (id ∷ ids) db = delete_orders-keeps ids (delete_order as_text id db)
