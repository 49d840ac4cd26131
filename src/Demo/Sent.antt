-- ===== src/Demo/Sent.antt =====
-- outbox/relay.ts and broker/consume-order-placed.ts: one order's row on its way to its effect.
use course_project.Base.{
  Result, err, ℕ, zero, suc, take, ◌<◌, ◌≡◌, refl, ◌∙◌, ◌==◌, ◌&&◌, not, Bool, true, false, Option,
  none, some, List, [], ◌∷◌, ◌++◌, any, filter, update, ok, arith, All, if◌then◌else◌,
  filter-append,
}
use course_project.Base.Text.{Text, text_eq_refl}
use course_project.Broker.Consumer.{
  Options, ConsumerStats, Verdict, on_applied, succeeded, handle, attach, run_bounded_consumer,
}
use course_project.Broker.Effects.{
  Outage, skipped, applied, Applied, order_placed_consumer, apply_order_placed, apply_tx,
  record_delivery, mark_processed, insert_effect, is_processed,
}
use course_project.Broker.Event.{OrderPlacedEvent, event_json, parse_order_placed}
use course_project.Db.Rows.{Db, OutboxRow, ProcessedMessage}
use course_project.Db.Tx.{transaction}
use course_project.Demo.Flow.{relay_options, message_of}
use course_project.Demo.{count_outbox, count_processed}
use course_project.Js.{Host}
use course_project.Outbox.Relay.{
  RelayOptions, limit_of, is_unpublished, is_wanted, insert_row, order_rows, select_rows,
  count_attempts, mark_published, event_from_payload, publish_rows, relay_outbox,
}

others-filter :
    (id : ℕ) (rows : List OutboxRow)
    → All (λ (r : OutboxRow). r.aggregate_id < id) rows
    → filter (λ r. is_unpublished r && is_wanted (some id) r && not (any (λ j. j == r.id) [])) rows
      ≡ []
others-filter id [] h = refl
others-filter id (r ∷ rows) h = ground (arith, h.0, others-filter id rows h.1)

others-count :
    (id : ℕ) (rows : List OutboxRow)
    → All (λ (r : OutboxRow). r.aggregate_id < id) rows
    → count_outbox id rows ≡ 0
others-count id [] h = refl
others-count id (r ∷ rows) h = ground (arith, h.0, others-count id rows h.1)

-- An update that keeps the orders of the rows keeps their number.
count_outbox-update :
    (id : ℕ) (p : OutboxRow → Bool) (f : OutboxRow → OutboxRow) (rows : List OutboxRow)
    → ((r : OutboxRow) → (f r).aggregate_id ≡ r.aggregate_id)
    → count_outbox id (update p f rows) ≡ count_outbox id rows
count_outbox-update id p f [] same = refl
count_outbox-update id p f (r ∷ rows) same =
    ground (arith, same r, count_outbox-update id p f rows same)

mark_published-count :
    (id now row : ℕ) (rows : List OutboxRow)
    → count_outbox id (mark_published now row rows) ≡ count_outbox id rows
unfolding mark_published
mark_published-count id now row rows =
    count_outbox-update id (λ (r : OutboxRow). r.id == row && is_unpublished r)
      (λ r. record r { published_at = some now }) rows (λ r. refl)

count_attempts-count :
    (id : ℕ) (row : OutboxRow) (rows : List OutboxRow)
    → count_outbox id (count_attempts (row ∷ []) rows) ≡ count_outbox id rows
unfolding count_attempts
count_attempts-count id row rows =
    count_outbox-update id (λ (r : OutboxRow). r.id == row.id)
      (λ r. record r { attempts = suc r.attempts }) rows (λ r. refl)

one_more :
    (id : ℕ) (old : List OutboxRow) (row : OutboxRow)
    → row.aggregate_id ≡ id
    → All (λ (r : OutboxRow). r.aggregate_id < id) old
    → count_outbox id (old ++ row ∷ []) ≡ 1
one_more id [] row mine h = ground (arith, mine)
one_more id (r ∷ old) row mine h = ground (arith, h.0, one_more id old row mine h.1)

take-nil : (k : ℕ) → take {A = OutboxRow} k [] ≡ []
take-nil zero = refl
take-nil (suc k) = refl

abbrev pub sending : Option ℕ → Bool → ℕ → RelayOptions
sending limit crash id = record {
  limit = limit;
  crash_after_publish = crash;
  aggregate_id = some id;
}

-- The only row of an order that has not been published, behind rows of other orders.
module _ (id : ℕ) (old : List OutboxRow) (row : OutboxRow) where
  pub select_one :
      (limit : Option ℕ) (crash : Bool) (k : ℕ)
      → limit_of (sending limit crash id) ≡ suc k
      → row.aggregate_id ≡ id
      → row.published_at ≡ none
      → All (λ (r : OutboxRow). r.aggregate_id < id) old
      → select_rows (sending limit crash id) [] (old ++ row ∷ []) ≡ row ∷ []
  unfolding select_rows order_rows insert_row
  select_one limit crash k room mine unsent others =
      let kept =
        filter-append
          (λ r. is_unpublished r && is_wanted (some id) r && not (any (λ j. j == r.id) [])) old
          (row ∷ []) in
      ground (arith, room, take-nil k, mine, unsent, kept, others-filter id old others)

  -- The outbox after the row is sent: all rows are there, and one is of the order.
  abbrev pub outbox_sent : ℕ → List OutboxRow
  outbox_sent now = mark_published now row.id (count_attempts (row ∷ []) (old ++ row ∷ []))

  pub outbox_sent-count :
      (now : ℕ)
      → row.aggregate_id ≡ id
      → All (λ (r : OutboxRow). r.aggregate_id < id) old
      → count_outbox id (outbox_sent now) ≡ 1
  outbox_sent-count now mine others =
      mark_published-count id now row.id (count_attempts (row ∷ []) (old ++ row ∷ []))
      ∙ count_attempts-count id row (old ++ row ∷ [])
      ∙ one_more id old row mine others

  pub relay_one :
      (host : Host) (confirms : OrderPlacedEvent → Bool) (now : ℕ) (e : OrderPlacedEvent)
      → row.aggregate_id ≡ id
      → row.published_at ≡ none
      → All (λ (r : OutboxRow). r.aggregate_id < id) old
      → event_from_payload host row.payload ≡ ok e
      → confirms e ≡ true
      → relay_outbox host confirms (relay_options id) [] now (old ++ row ∷ [])
        ≡ (ok 1, record { outbox = outbox_sent now; confirmed = e ∷ []; published = 1 })
  unfolding relay_outbox publish_rows
  relay_one host confirms now e mine unsent others good agreed =
      rw (select_one none false 9 refl mine unsent others) (ground (arith, good, agreed))

-- What `onApplied` does once the transaction has committed, for a consumer that stops after one.
on_applied-succeeded :
    (opts : Options) (stats : ConsumerStats) (vs : List Verdict) (a : Applied)
    (out : Result Outage Applied × Db)
    → opts.crash_before_ack ≡ false
    → opts.stop_after ≡ some 1
    → out.0 ≡ ok a
    → ((on_applied opts stats vs out).phase ≡ succeeded)
      × ((on_applied opts stats vs out).db ≡ out.1)
on_applied-succeeded opts stats vs a (err b, db) whole one done = absurd (ground (arith, done))
on_applied-succeeded opts stats vs a (ok b, db) whole one done =
    (ground (arith, whole, one), ground (arith, whole, one))

count_processed-new :
    (id : Text) (ms : List ProcessedMessage)
    → is_processed id ms ≡ false
    → count_processed id (ms ++ (record { message_id = id; consumer = order_placed_consumer }) ∷ [])
      ≡ 1
count_processed-new id [] h = ground (arith, text_eq_refl id, text_eq_refl order_placed_consumer)
count_processed-new id (m ∷ ms) h = ground (arith, h, count_processed-new id ms)

module _ (host : Host) (e : OrderPlacedEvent) (db : Db) where
  pub applied-ok : (a : Applied) × ((apply_order_placed false e db).0 ≡ ok a)
  unfolding apply_order_placed apply_tx record_delivery mark_processed insert_effect transaction
  applied-ok =
      (if is_processed e.event_id db.processed_messages then skipped else applied, ground arith)

  -- The consumer gets the event, applies it and stops.
  pub consume_one :
      parse_order_placed host (host.stringify (event_json e)) ≡ ok e
      → ((run_bounded_consumer host 1 (message_of host e ∷ []) db).phase ≡ succeeded)
        × ((run_bounded_consumer host 1 (message_of host e ∷ []) db).db
            ≡ (apply_order_placed false e db).1)
  unfolding run_bounded_consumer attach handle
  consume_one parsed =
      let (a, done) = applied-ok in
      rw parsed (
        on_applied-succeeded (record { crash_before_ack = false; stop_after = some 1 }) _ [] a
          (apply_order_placed false e db) refl refl done)

  pub apply-count_processed :
      is_processed e.event_id db.processed_messages ≡ false
      → count_processed e.event_id (apply_order_placed false e db).1.processed_messages ≡ 1
  unfolding apply_order_placed apply_tx record_delivery mark_processed insert_effect transaction
  apply-count_processed new =
      ground (arith, new, count_processed-new e.event_id db.processed_messages new)

  pub apply_keeps :
      ((apply_order_placed false e db).1.outbox ≡ db.outbox)
      × ((apply_order_placed false e db).1.idempotency_keys ≡ db.idempotency_keys)
  unfolding apply_order_placed apply_tx record_delivery mark_processed insert_effect transaction
  apply_keeps = (ground arith, ground arith)
