-- ===== src/Demo/Duplicate/Rerun.antt =====
-- demo-duplicate.ts: the first run on a database, and any other.
use course_project.Base.{
  ◌+◌, ◌==◌, ◌≡◌, refl, ap, ◌∙◌, true, false, not, none, some, [], ◌∷◌, filter, length, Result, ok,
  err, arith, if◌then◌else◌, Bool-cases, inl, inr,
}
use course_project.Base.Text.{text_eq}
use course_project.Broker.Consumer.{
  Consumer, ConsumerStats, Options, on_applied, on_parsed, succeeded, run_bounded_consumer,
  background_consumer, attach, handle,
}
use course_project.Broker.Effects.{
  Applied, Outage, apply_order_placed, is_processed, count_effects, count_deliveries,
  delete_demo_rows,
}
use course_project.Broker.Event.Laws.{parse-event_json}
use course_project.Broker.Event.{event_json, parse_order_placed}
use course_project.Db.Rows.{Db, OrderPlacedEffect}
use course_project.Demo.Crashes.{apply-is_processed}
use course_project.Demo.Duplicate.{
  duplicate_event, DuplicateError, timed_out, DuplicateRows, duplicate_rows, duplicate_ok,
  on_second_consumer, after_poll, demo_duplicate,
}
use course_project.Demo.Duplicate.Traces.{
  no_effects, no_deliveries, apply-first, apply-again, apply-delivered,
}
use course_project.Demo.Flow.{message_of}
use course_project.Demo.Sent.{applied-ok, consume_one}
use course_project.Js.{Host}

abbrev crashing : Options
crashing = record { crash_before_ack = true; stop_after = none }

on_applied-hung :
    (stats : ConsumerStats) (a : Applied) (out : Result Outage Applied × Db)
    → out.0 ≡ ok a
    → (on_applied crashing stats [] out).db ≡ out.1
on_applied-hung stats a (err b, db) done = absurd (ground (arith, done))
on_applied-hung stats a (ok b, db) done = refl

module _ (host : Host) where
  IsRead : Type 0
  IsRead =
      parse_order_placed host (host.stringify (event_json duplicate_event)) ≡ ok duplicate_event

  -- What the child has committed when it is killed
  left_by_child :
      (db : Db)
      → IsRead
      → background_consumer host true ((message_of host duplicate_event ∷ []) ∷ []) db
        ≡ (apply_order_placed false duplicate_event db).1
  unfolding background_consumer attach handle IsRead
  left_by_child db parsed =
      let (a, done) = applied-ok host duplicate_event db in
      ap
        (λ r.
          (on_parsed crashing (record { delivered = 1; acked = 0; rejected = 0 }) [] false db r).db)
        parsed
      ∙ on_applied-hung (record { delivered = 1; acked = 0; rejected = 0 }) a
          (apply_order_placed false duplicate_event db) done

on_second_consumer-succeeded :
    (c : Consumer) → c.phase ≡ succeeded → on_second_consumer c ≡ (ok (duplicate_rows c.db), c.db)
on_second_consumer-succeeded c done = rw done refl

-- The rows of a run that goes as the script wants.
abbrev pub skipped_once : DuplicateRows
skipped_once = record { deliveries = 2; effect = 1; skipped = 1 }

module _ (host : Host) (db : Db) where
  abbrev child : Db
  child = (apply_order_placed false duplicate_event (delete_demo_rows db)).1

  abbrev final : Db
  final = (apply_order_placed false duplicate_event child).1

  child-count :
      count_effects duplicate_event.event_id child
      ≡ (if is_processed duplicate_event.event_id db.processed_messages then 0 else 1)
  unfolding delete_demo_rows
  child-count =
      let id = duplicate_event.event_id in
      let nothing = no_effects id db.order_placed_effects refl in
      elim (Bool-cases (is_processed id db.processed_messages)) [
        | inl seen ↦ rw seen (
            ap (λ es. length (filter (λ (e : OrderPlacedEffect). text_eq e.event_id id) es))
              (apply-again duplicate_event (delete_demo_rows db) seen)
            ∙ nothing)
        | inr new ↦ rw new (apply-first duplicate_event (delete_demo_rows db) new nothing)
      ]

  final-rows :
      is_processed duplicate_event.event_id db.processed_messages ≡ false
      → duplicate_rows final ≡ skipped_once
  unfolding delete_demo_rows
  final-rows new =
      let id = duplicate_event.event_id in
      let deliveries : count_deliveries id final ≡ 2 =
        apply-delivered duplicate_event child
        ∙ ap (λ n. n + 1)
            (apply-delivered duplicate_event (delete_demo_rows db)
              ∙ ap (λ n. n + 1) (no_deliveries id db.order_placed_deliveries refl)) in
      let effect : count_effects id final ≡ 1 =
        ap (λ es. length (filter (λ (e : OrderPlacedEffect). text_eq e.event_id id) es))
          (apply-again duplicate_event child
            (apply-is_processed duplicate_event (delete_demo_rows db)))
        ∙ child-count
        ∙ rw new refl in
      rw (deliveries, effect) refl

  polled :
      IsRead host
      → demo_duplicate host db
        ≡ after_poll host child (not (is_processed duplicate_event.event_id db.processed_messages))
  unfolding demo_duplicate
  polled parsed =
      ap (λ d. after_poll host d (count_effects duplicate_event.event_id d == 1))
        (left_by_child host (delete_demo_rows db) parsed)
      ∙ ap (λ n. after_poll host child (n == 1)) child-count
      ∙ ap (after_poll host child) (ground arith)

  waits_in_vain :
      IsRead host
      → is_processed duplicate_event.event_id db.processed_messages ≡ true
      → demo_duplicate host db ≡ (err timed_out, child)
  waits_in_vain parsed seen = polled parsed ∙ ap (λ b. after_poll host child (not b)) seen

  first_run :
      IsRead host
      → is_processed duplicate_event.event_id db.processed_messages ≡ false
      → demo_duplicate host db ≡ (ok skipped_once, final)
  unfolding IsRead
  first_run parsed new =
      let (done, applied) = consume_one host duplicate_event child parsed in
      polled parsed
      ∙ ap (λ b. after_poll host child (not b)) new
      ∙ on_second_consumer-succeeded
          (run_bounded_consumer host 1 (message_of host duplicate_event ∷ []) child) done
      ∙ ap (λ d. (ok (duplicate_rows d), d)) applied
      ∙ ap (λ r. (ok r, final)) (final-rows new)

-- The script ends well on a database where its message was never processed: two deliveries, one
-- effect, one skipped. Where the message was processed, as after any earlier run, it times out, since
-- `deleteDemoRows` deletes the effect and leaves the processed message. JSON.parse inverts
-- JSON.stringify on the event.
pub demo_duplicate-rerun :
    (host : Host) (db : Db)
    → host.parse (host.stringify (event_json duplicate_event)) ≡ some (event_json duplicate_event)
    → ((demo_duplicate host db).0 ≡ (
        if is_processed duplicate_event.event_id db.processed_messages
        then err timed_out
        else ok skipped_once))
      × (duplicate_ok skipped_once ≡ true)
      × ((demo_duplicate host (demo_duplicate host db).1).0 ≡ err timed_out)
unfolding duplicate_ok IsRead
demo_duplicate-rerun host db codec =
    let id = duplicate_event.event_id in
    let parsed : IsRead host = parse-event_json host duplicate_event codec (record {
      has_event_id = λ h. cc;
      has_occurred_at = λ h. cc;
      has_order_id = omega arith;
      has_buyer_id = omega arith;
    }) in
    elim (Bool-cases (is_processed id db.processed_messages)) [
      | inl seen ↦
          let run = waits_in_vain host db parsed seen in
          (
            ap (λ r. r.0) run ∙ rw seen refl,
            refl,
            ap (λ (r : Result DuplicateError DuplicateRows × Db). (demo_duplicate host r.1).0) run
                ∙ ap (λ (r : Result DuplicateError DuplicateRows × Db). r.0)
                    (waits_in_vain host (child host db) parsed
                      (apply-is_processed duplicate_event (delete_demo_rows db))),
          )
      | inr new ↦
          let run = first_run host db parsed new in
          (
            ap (λ r. r.0) run ∙ rw new refl,
            refl,
            ap (λ (r : Result DuplicateError DuplicateRows × Db). (demo_duplicate host r.1).0) run
                ∙ ap (λ (r : Result DuplicateError DuplicateRows × Db). r.0)
                    (waits_in_vain host (final host db) parsed
                      (apply-is_processed duplicate_event (child host db))),
          )
    ]
