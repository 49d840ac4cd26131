-- ===== src/Demo/Counts.antt =====
-- demo-outbox.ts: what the demo counts at its end.
use course_project.Base.{
  Option-cases, inl, inr, ℕ, ◌+◌, ◌≤◌, ◌<◌, ◌≡◌, ◌≢◌, refl, ap, sym, subst, ◌∙◌, Bool, true, false,
  none, some, List, [], ◌∷◌, ◌++◌, ok, arith,
}
use course_project.Base.Text.{Text, text_eq_refl}
use course_project.Broker.Consumer.{Consumer, succeeded, run_bounded_consumer}
use course_project.Broker.Effects.Once.{IsExact, apply_order_placed-Delivers}
use course_project.Broker.Effects.{
  apply_order_placed, count_effects, count_deliveries, is_processed,
}
use course_project.Broker.Event.{
  OrderPlacedEvent, event_json, event_id_of, order_placed_event, parse_order_placed,
}
use course_project.Broker.Event.Laws.{parse-event_json}
use course_project.Checkout.Outcome.{bound, claimed, outbox_row, placed_event, committed}
use course_project.Checkout.Run.{occurred_at}
use course_project.Checkout.Steps.{find_key, Clock}
use course_project.Db.Rows.{Db, paid, status_text, IdempotencyKey, OutboxRow}
use course_project.Demo.Flow.{
  demo_key, on_consumed, on_relayed, on_second, on_first, demo_rows, DemoRows, demo_dto,
  demo_outbox, relay_options, message_of,
}
use course_project.Demo.Posts.{IsReady, IsPlaced, create-IsPlaced, first_reply, second_reply}
use course_project.Demo.Sent.{
  outbox_sent, outbox_sent-count, relay_one, consume_one, apply-count_processed, apply_keeps,
}
use course_project.Demo.{Fixture, owned, measure, count_outbox, count_processed}
use course_project.Idempotency.{key_ttl}
use course_project.Js.{Host}
use course_project.Orders.Service.{HttpOrder}
use course_project.Outbox.Relay.{relay_outbox, event_from_payload}

-- The key that the checkout has claimed and bound owns one order.
pub owned-bound :
    (key f : Text) (id : ℕ) (keys : List IdempotencyKey)
    → find_key key keys ≡ none
    → owned key (
        bound (some key) id (keys ++ (record { key = key; fingerprint = f; order_id = none }) ∷ []))
      ≡ id ∷ []
unfolding owned
owned-bound key f id [] free = ground (arith, text_eq_refl key)
owned-bound key f id (row ∷ keys) free = ground (arith, free, owned-bound key f id keys)

pub measure_one :
    (key : Text) (id n : ℕ) (db : Db)
    → owned key db.idempotency_keys ≡ id ∷ []
    → count_outbox id db.outbox ≡ 1
    → count_deliveries (event_id_of id) db ≡ n
    → count_effects (event_id_of id) db ≡ 1
    → count_processed (event_id_of id) db.processed_messages ≡ 1
    → measure key db ≡ record { orders = 1; outbox = 1; deliveries = n; effect = 1; processed = 1 }
unfolding measure
measure_one key id n db mine outbox deliveries effect processed =
    rw (mine, outbox, deliveries, effect, processed) refl

-- The rows of a demo that has gone well.
abbrev pub all_once : DemoRows
all_once = record {
  requests = 2;
  orders = 1;
  outbox = 1;
  published = 1;
  deliveries = 1;
  effect = 1;
  processed = 1;
}

pub event_from_payload-event :
    (host : Host) (e : OrderPlacedEvent)
    → parse_order_placed host (host.stringify (event_json e)) ≡ ok e
    → event_from_payload host (event_json e) ≡ ok e
unfolding event_from_payload event_json
event_from_payload-event host e parsed = parsed

on_consumed-succeeded :
    (key : Text) (n : ℕ) (c : Consumer)
    → c.phase ≡ succeeded
    → on_consumed key n c ≡ ok (demo_rows n (measure key c.db))
on_consumed-succeeded key n c done = rw done refl

module _ (host : Host) where
  -- One event of order `id`, of which the log has no trace yet, from the relay to the counts.
  pub on_relayed-once :
      (e : OrderPlacedEvent) (id : ℕ) (db : Db) (outbox : List OutboxRow)
      → e.event_id ≡ event_id_of id
      → parse_order_placed host (host.stringify (event_json e)) ≡ ok e
      → IsExact db
      → owned demo_key db.idempotency_keys ≡ id ∷ []
      → count_outbox id outbox ≡ 1
      → count_deliveries (event_id_of id) db ≡ 0
      → is_processed (event_id_of id) db.processed_messages ≡ false
      → on_relayed host demo_key db
          (ok 1, record { outbox = outbox; confirmed = e ∷ []; published = 1 })
        ≡ ok all_once
  on_relayed-once e id db outbox same parsed exact mine one new_delivery new_message =
      let queued : Db = record db { outbox = outbox } in
      let exact' : IsExact queued = record { mirrored = exact.mirrored; once = exact.once } in
      let (done, applied) = consume_one host e queued parsed in
      let (_, effect, delivery, _) = apply_order_placed-Delivers false e queued exact' in
      let (outbox', keys') = apply_keeps host e queued in
      let final = (apply_order_placed false e queued).1 in
      let counted =
        measure_one demo_key id 1 final (ap (owned demo_key) keys' ∙ mine)
          (ap (count_outbox id) outbox' ∙ one)
          (ap (λ k. count_deliveries k final) (sym same)
            ∙ delivery
            ∙ (ap (λ k. count_deliveries k db + 1) same ∙ omega (arith, new_delivery)))
          (ap (λ k. count_effects k final) (sym same) ∙ effect)
          (ap (λ k. count_processed k final.processed_messages) (sym same)
            ∙ apply-count_processed host e queued
                (ap (λ k. is_processed k db.processed_messages) same ∙ new_message)) in
      on_consumed-succeeded demo_key 1 (run_bounded_consumer host 1 (message_of host e ∷ []) queued)
        done
      ∙ ap (λ d. ok (demo_rows 1 (measure demo_key d))) applied
      ∙ ap (λ m. ok (demo_rows 1 m)) counted

  -- The event of a placed order is read back from its message.
  occurred_at-ne : (clock : Clock) → ((n : ℕ) → host.to_iso n ≢ []) → occurred_at host clock ≢ []
  occurred_at-ne clock iso h = elim (Option-cases clock.saved_created_at) [
    | inl none_saved ↦ iso clock.process_now (ground (arith, h, none_saved))
    | inr (n, saved) ↦ iso n (ground (arith, h, saved))
  ]

  pub placed-parsed :
      (o buyer total : ℕ) (clock : Clock) (status : Text)
      → ((e : OrderPlacedEvent) → host.parse (host.stringify (event_json e)) ≡ some (event_json e))
      → ((n : ℕ) → host.to_iso n ≢ [])
      → 1 ≤ o
      → 1 ≤ buyer
      → let e = order_placed_event o buyer total status (occurred_at host clock) in
        parse_order_placed host (host.stringify (event_json e)) ≡ ok e
  unfolding order_placed_event event_id_of
  placed-parsed o buyer total clock status codec iso has_order has_buyer =
      parse-event_json host _ (codec _) (record {
        has_event_id = λ h. cc;
        has_occurred_at = occurred_at-ne clock iso;
        has_order_id = has_order;
        has_buyer_id = has_buyer;
      })

  -- After the second reply, the relay and the consumer have one row to work on.
  placed-once :
      (confirms : OrderPlacedEvent → Bool) (fixture : Fixture) (clock : Clock) (now : ℕ)
      (db after : Db) (order : HttpOrder)
      → ((e : OrderPlacedEvent) → host.parse (host.stringify (event_json e)) ≡ some (event_json e))
      → ((n : ℕ) → host.to_iso n ≢ [])
      → ((e : OrderPlacedEvent) → confirms e ≡ true)
      → IsReady demo_key fixture db
      → IsPlaced host clock fixture db order after
      → on_relayed host demo_key after
          (relay_outbox host confirms (relay_options order.id) [] now after.outbox)
        ≡ ok all_once
  unfolding order_placed_event
  placed-once confirms fixture clock now db after order codec iso agrees r p =
      let start = claimed (some demo_key) p.input db in
      let e = placed_event host p.input clock start p.trace in
      let row = outbox_row db.seq.outbox db.seq.order e clock.now in
      let done = committed host p.input clock (some demo_key) start p.trace in
      let parsed =
        placed-parsed db.seq.order p.input.buyer_id p.trace.reserved.total clock (status_text paid)
          codec iso r.order_id (subst (λ b. 1 ≤ b) (sym p.buyer) r.buyer_id) in
      let relayed =
        relay_one db.seq.order db.outbox row host confirms now e refl refl r.new_outbox
          (event_from_payload-event host e parsed) (agrees e) in
      rw (p.commits, p.id, relayed)
        (on_relayed-once e db.seq.order done (outbox_sent db.seq.order db.outbox row now) refl
          parsed (record { mirrored = r.exact.mirrored; once = r.exact.once })
          (owned-bound demo_key _ db.seq.order db.idempotency_keys r.free)
          (outbox_sent-count db.seq.order db.outbox row now refl r.new_outbox) r.new_delivery
          r.new_message)

  -- From a database that is ready, the demo counts one order, one outbox row, one published event,
  -- one delivery, one effect and one processed message for its two requests.
  pub demo_outbox-all_once :
      (confirms : OrderPlacedEvent → Bool) (fixture : Fixture) (t u : ℕ) (first second : Clock)
      (db : Db)
      → ((e : OrderPlacedEvent) → host.parse (host.stringify (event_json e)) ≡ some (event_json e))
      → ((n : ℕ) → host.to_iso n ≢ [])
      → ((e : OrderPlacedEvent) → confirms e ≡ true)
      → u < t + key_ttl
      → IsReady demo_key fixture db
      → demo_outbox host confirms t u first second (demo_dto fixture) db ≡ ok all_once
  unfolding demo_outbox
  demo_outbox-all_once confirms fixture t u first second db codec iso agrees live r =
      let dto = demo_dto fixture in
      let (order, after, placed, p) = create-IsPlaced host first fixture db r in
      let (records, one) = first_reply host t first dto db after order placed in
      let (records', two) = second_reply host u (t + key_ttl) second dto after order records live in
      ap (on_first host confirms demo_key u second dto) one
      ∙ ap (on_second host confirms demo_key second.now) two
      ∙ placed-once confirms fixture first second.now db after order codec iso agrees r p
