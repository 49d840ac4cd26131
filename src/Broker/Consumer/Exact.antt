-- ===== src/Broker/Consumer/Exact.antt =====
-- The consumer applies every event once, whatever is delivered again.
use course_project.Base.{
  ap, suc, ◌≤◌, ◌≡◌, refl, Bool, true, false, List, [], ◌∷◌, ◌++◌, Result, ok, err, arith, inl, inr,
  ◌⊎◌, ◌∙◌, Result-cases,
}
use mathlib.Core.List.{append-nil, append_assoc}
use course_project.Base.Text.{Text}
use course_project.Js.{Host}
use course_project.Db.Rows.{Db}
use course_project.Broker.Event.{OrderPlacedEvent, BadEvent, parse_order_placed}
use course_project.Broker.Effects.{Applied, Outage, apply_order_placed, count_effects}
use course_project.Broker.Effects.Once.{
  IsExact, apply-IsExact, apply-count_effects, apply_order_placed-Delivers,
}
use course_project.Broker.Consumer.{
  Options, Phase, running, Verdict, ack, reject, requeue, silence, Consumer, ConsumerStats,
  handle_in, on_applied, Message, handle, attach, on_parsed,
}

-- What a verdict says of a message with the parse result `r`: only an event whose effect is
-- committed is acked, only a body that is no event is rejected and then nothing is written, a message
-- is requeued only if its transaction broke and was rolled back, and none is left in silence but
-- under `crashBeforeAck`, with its effect committed.
abbrev pub Means : Options → Bool → Db → Result BadEvent OrderPlacedEvent → Verdict → Db → Type 0
Means opts fails db r ack db' =
    (e : OrderPlacedEvent) × (r ≡ ok e) × (count_effects e.event_id db' ≡ 1)
Means opts fails db r reject db' = (e : BadEvent) × (r ≡ err e) × (db' ≡ db)
Means opts fails db r requeue db' = (fails ≡ true) × (db' ≡ record db { seq = db'.seq })
Means opts fails db r silence db' =
    (opts.crash_before_ack ≡ true)
    × ((e : OrderPlacedEvent) × (r ≡ ok e) × (count_effects e.event_id db' ≡ 1))

module _ (opts : Options) (stats : ConsumerStats) (vs : List Verdict) where
  on_event-Means :
      (crash fails : Bool) (db : Db) (e : OrderPlacedEvent)
      → IsExact db
      → opts.crash_before_ack ≡ crash
      → let c = on_parsed opts stats vs fails db (ok e) in
        (v : Verdict) × (c.verdicts ≡ vs ++ v ∷ []) × Means opts fails db (ok e) v c.db
  on_event-Means crash true db e x s =
      let d = apply_order_placed-Delivers true e db x in
      (requeue, ground (arith, d.0), (refl, ground (arith, d.0, d.1)))
  on_event-Means true false db e x s =
      let d = apply_order_placed-Delivers false e db x in
      (silence, ground (arith, s, d.0), (s, (e, refl, ground (arith, s, d.0, d.1))))
  on_event-Means false false db e x s =
      let d = apply_order_placed-Delivers false e db x in
      (ack, ground (arith, s, d.0), (e, refl, ground (arith, s, d.0, d.1)))

  on_parsed-Means :
      (fails : Bool) (db : Db) (r : Result BadEvent OrderPlacedEvent)
      → IsExact db
      → let c = on_parsed opts stats vs fails db r in
        (v : Verdict) × (c.verdicts ≡ vs ++ v ∷ []) × Means opts fails db r v c.db
  on_parsed-Means fails db (err e) x = (reject, refl, (e, refl, refl))
  on_parsed-Means fails db (ok e) x = on_event-Means opts.crash_before_ack fails db e x refl

module _ (host : Host) (opts : Options) where
  -- On an exact log, a running consumer gives a message one verdict, which tells what became of it.
  -- Acked: it was an event, which now has one effect. Rejected: it was no event, and no table
  -- changed. Requeued: its transaction broke and no table changed. No answer: the consumer was to
  -- crash before the ack, and the event has one effect.
  handle-Means :
      (msg : Message host) (c : Consumer)
      → IsExact c.db
      → c.phase ≡ running
      → (v : Verdict) × ((handle host opts msg c).verdicts ≡ c.verdicts ++ v ∷ [])
        × Means opts msg.fails c.db (parse_order_placed host msg.body) v (handle host opts msg c).db
  unfolding handle
  handle-Means msg c x p =
      rw (p, handle_in)
        (on_parsed-Means opts (record (c.stats) { delivered = suc c.stats.delivered }) c.verdicts
          msg.fails c.db (parse_order_placed host msg.body) x)

on_applied-db :
    (opts : Options) (stats : ConsumerStats) (vs : List Verdict) (out : Result Outage Applied × Db)
    → (on_applied opts stats vs out).db ≡ out.1
on_applied-db opts stats vs (ok r, db) = ground arith
on_applied-db opts stats vs (err e, db) = refl

module _ (host : Host) (opts : Options) where
  -- A handler leaves the database alone or applies the event of its message.
  Touches : Message host → Db → Db → Type 0
  Touches msg db db' =
      (db' ≡ db)
      ⊎ ((e : OrderPlacedEvent) × (parse_order_placed host msg.body ≡ ok e)
          × (db' ≡ (apply_order_placed msg.fails e db).1))

  handle-Touches :
      (phase : Phase) (msg : Message host) (c : Consumer)
      → Touches msg c.db (handle_in host opts phase msg c).db
  unfolding Touches
  handle-Touches running msg c = elim (Result-cases (parse_order_placed host msg.body)) [
    | inl (e, bad) ↦ inl (ground (arith, bad))
    | inr (e, good) ↦ inr (e, good, rw good (on_applied-db opts _ c.verdicts _))
  ]
  handle-Touches _ msg c = inl refl

  handle-IsExact :
      (msg : Message host) (c : Consumer) → IsExact c.db → IsExact (handle host opts msg c).db
  unfolding handle Touches
  handle-IsExact msg c x = elim (handle-Touches c.phase msg c) [
    | inl same ↦ rw same x
    | inr (e, _, same) ↦ rw same (apply-IsExact msg.fails e c.db x)
  ]

  handle-count_effects :
      (msg : Message host) (c : Consumer) (id : Text)
      → count_effects id c.db ≤ count_effects id (handle host opts msg c).db
  unfolding handle Touches
  handle-count_effects msg c id = elim (handle-Touches c.phase msg c) [
    | inl same ↦ rw same (omega arith)
    | inr (e, _, same) ↦ rw same (apply-count_effects msg.fails e c.db id)
  ]

  pub attach-IsExact :
      (msgs : List (Message host)) (c : Consumer)
      → IsExact c.db
      → IsExact (attach host opts msgs c).db
  unfolding attach
  attach-IsExact [] c x = x
  attach-IsExact (msg ∷ msgs) c x =
      attach-IsExact msgs (handle host opts msg c) (handle-IsExact msg c x)

  attach-count_effects :
      (msgs : List (Message host)) (c : Consumer) (id : Text)
      → count_effects id c.db ≤ count_effects id (attach host opts msgs c).db
  unfolding attach
  attach-count_effects [] c id = omega arith
  attach-count_effects (msg ∷ msgs) c id =
      omega (
        arith,
        handle-count_effects msg c id,
        attach-count_effects msgs (handle host opts msg c) id,
      )

  -- The verdicts on the messages, one each; an acked message is an event with one effect in `db`.
  abbrev pub Acks : List (Message host) → List Verdict → Db → Type 0
  Acks [] [] db = Unit
  Acks (msg ∷ msgs) (v ∷ vs) db =
      (v ≡ ack
        → (e : OrderPlacedEvent) × (parse_order_placed host msg.body ≡ ok e)
          × (count_effects e.event_id db ≡ 1))
      × Acks msgs vs db
  Acks _ _ db = ⊥

  handle-verdict :
      (phase : Phase) (msg : Message host) (c : Consumer)
      → c.phase ≡ phase
      → IsExact c.db
      → (v : Verdict) × ((handle host opts msg c).verdicts ≡ c.verdicts ++ v ∷ [])
        × (v ≡ ack
            → (e : OrderPlacedEvent) × (parse_order_placed host msg.body ≡ ok e)
              × (count_effects e.event_id (handle host opts msg c).db ≡ 1))
  unfolding handle
  handle-verdict running msg c p x = acked (handle-Means host opts msg c x p)
    where
      acked :
          (v : Verdict) × ((handle host opts msg c).verdicts ≡ c.verdicts ++ v ∷ [])
            × Means opts msg.fails c.db
                (parse_order_placed host msg.body)
                v
                (handle host opts msg c).db
          → (v : Verdict) × ((handle host opts msg c).verdicts ≡ c.verdicts ++ v ∷ [])
            × (v ≡ ack
                → (e : OrderPlacedEvent) × (parse_order_placed host msg.body ≡ ok e)
                  × (count_effects e.event_id (handle host opts msg c).db ≡ 1))
      acked (ack, same, m) = (ack, same, λ _. m)
      acked (reject, same, m) = (reject, same, λ q. cc)
      acked (requeue, same, m) = (requeue, same, λ q. cc)
      acked (silence, same, m) = (silence, same, λ q. cc)
  handle-verdict _ msg c p x = (silence, rw (p, handle_in), λ q. cc)

  -- Whatever is delivered, redelivered, malformed or broken by an outage, the log stays exact, every
  -- message gets at most one verdict, and the event of every acked message has one effect at the end.
  pub attach-Acks :
      (msgs : List (Message host)) (c : Consumer)
      → IsExact c.db
      → let c' = attach host opts msgs c in
        IsExact c'.db
        × ((vs : List Verdict) × (c'.verdicts ≡ c.verdicts ++ vs) × Acks msgs vs c'.db)
  unfolding attach
  attach-Acks [] c x = (x, ([], ground (arith, append-nil c.verdicts), tt))
  attach-Acks (msg ∷ msgs) c x =
      let c1 = handle host opts msg c in
      let (v, one, good) = handle-verdict c.phase msg c refl x in
      let (x', (vs, rest, acks)) = attach-Acks msgs c1 (handle-IsExact msg c x) in
      (
        x',
        (
          v ∷ vs,
          rest ∙ ap (λ ws. ws ++ vs) one ∙ append_assoc c.verdicts (v ∷ []) vs,
          (
            λ q.
                let (e, parsed, applied) = good q in
                (
                  e,
                  parsed,
                  omega
                      (arith, applied, x'.once e.event_id, attach-count_effects msgs c1 e.event_id),
                ),
            acks,
          ),
        ),
      )
