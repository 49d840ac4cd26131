-- ===== src/Demo/Resent.antt =====
-- outbox/relay.ts and broker/consume-order-placed.ts: one order's row that is sent, left unmarked, and
-- sent again.
use course_project.Base.{
  ℕ, suc, ◌<◌, ◌≡◌, refl, ◌∙◌, ◌==◌, Bool, true, false, none, some, List, [], ◌∷◌, ◌++◌, update,
  Bool-cases, inl, inr, ok, err, Result, arith, All,
}
use course_project.Broker.Consumer.{
  Options, Consumer, on_applied, running, succeeded, ack, handle, attach, run_bounded_consumer,
}
use course_project.Broker.Effects.{Outage, Applied, apply_order_placed}
use course_project.Broker.Event.{OrderPlacedEvent, event_json, parse_order_placed}
use course_project.Db.Rows.{Db, OutboxRow}
use course_project.Demo.Crash.{crash_options}
use course_project.Demo.Flow.{message_of}
use course_project.Demo.Sent.{select_one, applied-ok}
use course_project.Js.{Host}
use course_project.Outbox.Relay.{
  relay_crashed, count_attempts, event_from_payload, publish_rows, relay_outbox,
}

update-append {ℓ} :
    {A : Type ℓ} (p : A → Bool) (f : A → A) (xs ys : List A)
    → update p f (xs ++ ys) ≡ update p f xs ++ update p f ys
update-append p f [] ys = refl
update-append p f (x ∷ xs) ys = ground (arith, update-append p f xs ys)

-- The rows after one attempt
abbrev pub tried : OutboxRow → OutboxRow
tried r = record r { attempts = suc r.attempts }

abbrev pub old_tried : List OutboxRow → OutboxRow → List OutboxRow
old_tried old row = update (λ (r : OutboxRow). r.id == row.id) tried old

module _ (id : ℕ) (old : List OutboxRow) (row : OutboxRow) where
  tried_all : count_attempts (row ∷ []) (old ++ row ∷ []) ≡ old_tried old row ++ tried row ∷ []
  unfolding count_attempts
  tried_all = update-append (λ (r : OutboxRow). r.id == row.id) tried old (row ∷ []) ∙ ground arith

  pub relay_crashing :
      (host : Host) (confirms : OrderPlacedEvent → Bool) (now : ℕ) (e : OrderPlacedEvent)
      → row.aggregate_id ≡ id
      → row.published_at ≡ none
      → All (λ (r : OutboxRow). r.aggregate_id < id) old
      → event_from_payload host row.payload ≡ ok e
      → confirms e ≡ true
      → relay_outbox host confirms (crash_options id) [] now (old ++ row ∷ []) ≡ (
        err relay_crashed,
        record { outbox = old_tried old row ++ tried row ∷ []; confirmed = e ∷ []; published = 1 },
      )
  unfolding relay_outbox publish_rows
  relay_crashing host confirms now e mine unsent others good agreed =
      rw (select_one id old row (some 1) true 0 refl mine unsent others)
        (ground (arith, good, agreed, tried_all))

All-update {ℓ κ} :
    {A : Type ℓ} (P : A → Type κ) (p : A → Bool) (f : A → A) (xs : List A)
    → ((x : A) → P x → P (f x))
    → All P xs
    → All P (update p f xs)
All-update P p f [] same h = tt
All-update P p f (x ∷ xs) same h = elim (Bool-cases (p x)) [
  | inl hit ↦ rw hit (same x h.0, All-update P p f xs same h.1)
  | inr miss ↦ rw miss (h.0, All-update P p f xs same h.1)
]

pub old_tried-others :
    (id : ℕ) (old : List OutboxRow) (row : OutboxRow)
    → All (λ (r : OutboxRow). r.aggregate_id < id) old
    → All (λ (r : OutboxRow). r.aggregate_id < id) (old_tried old row)
old_tried-others id old row h =
    All-update (λ (r : OutboxRow). r.aggregate_id < id) (λ (r : OutboxRow). r.id == row.id) tried
      old (λ r h. h) h

abbrev two : Options
two = record { crash_before_ack = false; stop_after = some 2 }

-- A first message that is applied leaves the consumer waiting for the second.
abbrev after_first : Db → Consumer
after_first db = record {
  stats = record { delivered = 1; acked = 1; rejected = 0 };
  phase = running;
  verdicts = ack ∷ [];
  db = db;
}

on_applied-first :
    (a : Applied) (out : Result Outage Applied × Db)
    → out.0 ≡ ok a
    → on_applied two (record { delivered = 1; acked = 0; rejected = 0 }) [] out ≡ after_first out.1
on_applied-first a (err b, db) done = absurd (ground (arith, done))
on_applied-first a (ok b, db) done = refl

on_applied-second :
    (a : Applied) (out : Result Outage Applied × Db)
    → out.0 ≡ ok a
    → let c = on_applied two (record { delivered = 2; acked = 1; rejected = 0 }) (ack ∷ []) out in
      (c.phase ≡ succeeded) × (c.db ≡ out.1)
on_applied-second a (err b, db) done = absurd (ground (arith, done))
on_applied-second a (ok b, db) done = (refl, refl)

module _ (host : Host) (e : OrderPlacedEvent) (db : Db) where
  -- The consumer applies the event twice and stops.
  pub consume_two :
      parse_order_placed host (host.stringify (event_json e)) ≡ ok e
      → let c = run_bounded_consumer host 2 (message_of host e ∷ message_of host e ∷ []) db in
        (c.phase ≡ succeeded)
        × (c.db ≡ (apply_order_placed false e (apply_order_placed false e db).1).1)
  unfolding run_bounded_consumer attach handle
  consume_two parsed =
      let (a, first) = applied-ok host e db in
      let (b, second) = applied-ok host e (apply_order_placed false e db).1 in
      rw (parsed, on_applied-first a (apply_order_placed false e db) first)
        (rw parsed (
          on_applied-second b (apply_order_placed false e (apply_order_placed false e db).1)
            second))
