-- ===== src/Demo/Crashes.antt =====
-- demo-crash-relay.ts: what the script counts.
use course_project.Base.{
  ℕ, ◌+◌, ◌≡◌, ◌≢◌, refl, ap, sym, ◌∙◌, Bool, true, false, some, [], ◌∷◌, ◌++◌, ok, arith,
}
use course_project.Base.Text.{Text, codes, text_eq_refl, trim}
use course_project.Broker.Consumer.{Consumer, succeeded, run_bounded_consumer}
use course_project.Broker.Effects.Once.{
  IsExact, apply-IsExact, is_processed-append, apply_order_placed-Delivers,
}
use course_project.Broker.Effects.{
  apply_order_placed, apply_tx, record_delivery, mark_processed, insert_effect, count_effects,
  count_deliveries, is_processed,
}
use course_project.Broker.Event.{
  OrderPlacedEvent, event_json, event_id_of, order_placed_event, parse_order_placed,
}
use course_project.Checkout.Outcome.{claimed, outbox_row, placed_event, committed}
use course_project.Checkout.Run.{checkout}
use course_project.Checkout.Steps.{Clock, trimmed_key}
use course_project.Db.Rows.{Db, paid, status_text}
use course_project.Db.Tx.{transaction}
use course_project.Demo.Cleaned.{IsSound}
use course_project.Demo.Counts.{owned-bound, measure_one, event_from_payload-event, placed-parsed}
use course_project.Demo.Crash.{
  crash_relay_key, crash_input, CrashRows, relay_ok, crash_rows, on_counted, on_resent, on_crashed,
  on_checkout, crash_relay,
}
use course_project.Demo.Flow.{message_of}
use course_project.Demo.Place.{one_line_trace, stocked-IsOffered, one_line-Succeeds, checkout-ok}
use course_project.Demo.Posts.{IsReady}
use course_project.Demo.Prepared.{IsNew, prepare_demo-IsReady}
use course_project.Demo.Resent.{tried, old_tried, old_tried-others, relay_crashing, consume_two}
use course_project.Demo.Sent.{
  outbox_sent, outbox_sent-count, relay_one, apply-count_processed, apply_keeps,
}
use course_project.Demo.{
  Fixture, NextIds, owned, measure, count_outbox, count_processed, prepare_demo,
}
use course_project.Js.{Json, Host}

crash_relay_key-trimmed : trimmed_key (some crash_relay_key) ≡ some crash_relay_key
unfolding trim
crash_relay_key-trimmed = refl

-- The rows of a run that goes as the script wants.
abbrev pub sent_twice : CrashRows
sent_twice = record { published = 2; deliveries = 2; applied = 1; effect = 1; processed = 1 }

module _ (e : OrderPlacedEvent) (db : Db) where
  pub apply-is_processed :
      is_processed e.event_id (apply_order_placed false e db).1.processed_messages ≡ true
  unfolding apply_order_placed apply_tx record_delivery mark_processed insert_effect transaction
  apply-is_processed = ground (
    arith,
    is_processed-append e.event_id e.event_id db.processed_messages,
    text_eq_refl e.event_id,
  )

  pub apply-processed :
      is_processed e.event_id db.processed_messages ≡ true
      → (apply_order_placed false e db).1.processed_messages ≡ db.processed_messages
  unfolding apply_order_placed apply_tx record_delivery mark_processed insert_effect transaction
  apply-processed seen = ground (arith, seen)

on_counted-succeeded :
    (n : ℕ) (c : Consumer)
    → c.phase ≡ succeeded
    → on_counted n c ≡ ok (crash_rows n (measure crash_relay_key c.db))
on_counted-succeeded n c done = rw done refl

module _ (host : Host) (e : OrderPlacedEvent) (id : ℕ) (db : Db) where
  -- The counts of order `id` behind two deliveries of its event, of which the log had no trace.
  counted_twice :
      e.event_id ≡ event_id_of id
      → IsExact db
      → owned crash_relay_key db.idempotency_keys ≡ id ∷ []
      → count_outbox id db.outbox ≡ 1
      → count_deliveries (event_id_of id) db ≡ 0
      → is_processed (event_id_of id) db.processed_messages ≡ false
      → measure crash_relay_key (apply_order_placed false e (apply_order_placed false e db).1).1
        ≡ record { orders = 1; outbox = 1; deliveries = 2; effect = 1; processed = 1 }
  counted_twice same exact mine one new_delivery new_message =
      let mid = (apply_order_placed false e db).1 in
      let final = (apply_order_placed false e mid).1 in
      let (_, _, delivery, _) = apply_order_placed-Delivers false e db exact in
      let (_, effect, again, _) =
        apply_order_placed-Delivers false e mid (apply-IsExact false e db exact) in
      let (outbox, keys) = apply_keeps host e db in
      let (outbox', keys') = apply_keeps host e mid in
      measure_one crash_relay_key id 2 final (ap (owned crash_relay_key) (keys' ∙ keys) ∙ mine)
        (ap (count_outbox id) (outbox' ∙ outbox) ∙ one)
        (ap (λ k. count_deliveries k final) (sym same)
          ∙ again
          ∙ ap (λ n. n + 1) (delivery ∙ ap (λ k. count_deliveries k db + 1) same)
          ∙ omega (arith, new_delivery))
        (ap (λ k. count_effects k final) (sym same) ∙ effect)
        (ap (λ k. count_processed k final.processed_messages) (sym same)
          ∙ ap (count_processed e.event_id) (apply-processed e mid (apply-is_processed e db))
          ∙ apply-count_processed host e db
              (ap (λ k. is_processed k db.processed_messages) same ∙ new_message))

  on_resent-twice :
      e.event_id ≡ event_id_of id
      → parse_order_placed host (host.stringify (event_json e)) ≡ ok e
      → IsExact db
      → owned crash_relay_key db.idempotency_keys ≡ id ∷ []
      → count_outbox id db.outbox ≡ 1
      → count_deliveries (event_id_of id) db ≡ 0
      → is_processed (event_id_of id) db.processed_messages ≡ false
      → on_counted 2 (run_bounded_consumer host 2 (message_of host e ∷ message_of host e ∷ []) db)
        ≡ ok sent_twice
  on_resent-twice same parsed exact mine one new_delivery new_message =
      let (done, applied) = consume_two host e db parsed in
      on_counted-succeeded 2
        (run_bounded_consumer host 2 (message_of host e ∷ message_of host e ∷ []) db) done
      ∙ ap (λ d. ok (crash_rows 2 (measure crash_relay_key d))) applied
      ∙ ap (λ m. ok (crash_rows 2 m)) (counted_twice same exact mine one new_delivery new_message)

module _ (host : Host) (confirms : OrderPlacedEvent → Bool) where
  on_checkout-twice :
      (fixture : Fixture) (clock : Clock) (t u : ℕ) (db : Db)
      → ((e : OrderPlacedEvent) → host.parse (host.stringify (event_json e)) ≡ some (event_json e))
      → ((n : ℕ) → host.to_iso n ≢ [])
      → ((e : OrderPlacedEvent) → confirms e ≡ true)
      → IsReady crash_relay_key fixture db
      → on_checkout host confirms t u (
          checkout host
            (crash_input crash_relay_key (codes "demo:crash-relay") false fixture)
            clock
            db)
        ≡ ok sent_twice
  unfolding order_placed_event
  on_checkout-twice fixture clock t u db codec iso agrees r =
      let input = crash_input crash_relay_key (codes "demo:crash-relay") false fixture in
      let start = claimed (some crash_relay_key) input db in
      let tr = one_line_trace fixture.buyer_id fixture.product_id 100 start in
      let s =
        one_line-Succeeds input fixture.product_id 100 start refl
          (stocked-IsOffered fixture.product_id db.products r.stocked) r.rich (omega arith)
          r.new_items in
      let id = db.seq.order in
      let e = placed_event host input clock start tr in
      let row = outbox_row db.seq.outbox id e clock.now in
      let done = committed host input clock (some crash_relay_key) start tr in
      let parsed =
        placed-parsed host id fixture.buyer_id tr.reserved.total clock (status_text paid) codec iso
          r.order_id r.buyer_id in
      let event = event_from_payload-event host e parsed in
      let old = old_tried db.outbox row in
      let others = old_tried-others id db.outbox row r.new_outbox in
      let queued : Db = record done { outbox = outbox_sent id old (tried row) u } in
      ap (on_checkout host confirms t u) (
        checkout-ok host input clock crash_relay_key db tr refl refl crash_relay_key-trimmed r.free
          s)
      ∙ ap (on_crashed host confirms id u done) (
          relay_crashing id db.outbox row host confirms t e refl refl r.new_outbox event (agrees e))
      ∙ ap (on_resent host confirms 1 (e ∷ []) (record done { outbox = old ++ tried row ∷ [] }))
          (relay_one id old (tried row) host confirms u e refl refl others event (agrees e))
      ∙ on_resent-twice host e id queued refl parsed
          (record { mirrored = r.exact.mirrored; once = r.exact.once })
          (owned-bound crash_relay_key _ id db.idempotency_keys r.free)
          (outbox_sent-count id old (tried row) u refl others) r.new_delivery r.new_message

-- From any sound database, an event that the relay has published before it dies and publishes again
-- in its next run is delivered twice, and has one effect and one processed message. The broker
-- confirms every event, JSON.parse inverts JSON.stringify on events, times are written as non-empty
-- texts, and new rows get positive and new ids.
pub crash_relay-once :
    (host : Host) (confirms : OrderPlacedEvent → Bool) (as_text : Json → Text) (next : NextIds)
    (clock : Clock) (t u : ℕ) (db : Db)
    → ((e : OrderPlacedEvent) → host.parse (host.stringify (event_json e)) ≡ some (event_json e))
    → ((n : ℕ) → host.to_iso n ≢ [])
    → ((e : OrderPlacedEvent) → confirms e ≡ true)
    → IsSound db
    → IsNew next db
    → (crash_relay host confirms as_text next clock t u db ≡ ok sent_twice)
      × (relay_ok sent_twice ≡ true)
unfolding crash_relay relay_ok
crash_relay-once host confirms as_text next clock t u db codec iso agrees s n = (
  on_checkout-twice host confirms (prepare_demo as_text crash_relay_key next db).0 clock t u
      (prepare_demo as_text crash_relay_key next db).1 codec iso agrees
      (prepare_demo-IsReady crash_relay_key as_text next db s n),
  refl,
)
