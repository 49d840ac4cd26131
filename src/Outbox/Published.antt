-- ===== src/Outbox/Published.antt =====
-- outbox/relay.ts: the relay marks what the broker has confirmed, and all of that.
use course_project.Base.{
  ℕ, suc, ◌+◌, ◌≡◌, sym, ◌∙◌, ◌⊎◌, inl, inr, Bool, true, false, ◌||◌, ◌==◌, List, [], ◌∷◌, ◌++◌,
  length, ok, arith, All, Bool-cases, Result-cases,
}
use course_project.Js.{Host}
use course_project.Db.Rows.{OutboxRow}
use course_project.Broker.Event.{OrderPlacedEvent}
use course_project.Outbox.Relay.{
  RelayOptions, select_rows, count_attempts, mark_published, Relay, event_from_payload,
  publish_rows, relay_outbox,
}
use course_project.Outbox.Selection.{
  has_row, is_published, count_attempts-published, count_attempts-has_row, mark_published-published,
  mark_published-has_row, any-select_rows,
}

module _ (host : Host) (confirms : OrderPlacedEvent → Bool) where
  -- The payload is an event that the broker confirms.
  abbrev pub IsSendable : OutboxRow → Type 0
  IsSendable row =
      (e : OrderPlacedEvent) × (event_from_payload host row.payload ≡ ok e) × (confirms e ≡ true)

  -- The loop's state after row `row` was sent and marked.
  abbrev sent_row : ℕ → OutboxRow → OrderPlacedEvent → Relay → Relay
  sent_row now row e s = record {
    outbox = mark_published now row.id s.outbox;
    confirmed = s.confirmed ++ e ∷ [];
    published = suc s.published;
  }

  -- The broker has confirmed the event of row `id`, which is among `rows`.
  abbrev pub Confirmed : ℕ → List OutboxRow → Type 0
  Confirmed id [] = ⊥
  Confirmed id (row ∷ rows) = ((row.id ≡ id) × IsSendable row) ⊎ Confirmed id rows

  publish_rows-Confirmed :
      (crash : Bool) (now id : ℕ) (rows : List OutboxRow) (s : Relay)
      → is_published id (publish_rows host confirms crash now rows s).1.outbox ≡ true
      → (is_published id s.outbox ≡ true) ⊎ Confirmed id rows
  unfolding publish_rows
  publish_rows-Confirmed crash now id [] s h = inl h
  publish_rows-Confirmed crash now id (row ∷ rows) s h =
      elim (Result-cases (event_from_payload host row.payload)) [
        | inl (e, bad) ↦ inl (ground (arith, bad))
        | inr (e, good) ↦ elim (Bool-cases (confirms e)) [
          | inl agreed ↦ elim (Bool-cases crash) [
            | inl crashed ↦ inl (ground (arith, good, agreed, crashed))
            | inr whole ↦
                elim (publish_rows-Confirmed crash now id rows (sent_row now row e s)
                  (ground (arith, h, good, agreed, whole))) [
                    | inl before ↦ marked e good agreed before
                    | inr later ↦ inr (inr later)
                  ]
          ]
          | inr refused ↦ inl (ground (arith, good, refused))
        ]
      ]
    where
      marked :
          (e : OrderPlacedEvent)
          → event_from_payload host row.payload ≡ ok e
          → confirms e ≡ true
          → is_published id (mark_published now row.id s.outbox) ≡ true
          → (is_published id s.outbox ≡ true) ⊎ Confirmed id (row ∷ rows)
      marked e good agreed before = elim (Bool-cases (row.id == id)) [
        | inl same ↦ inr (inl (ground (arith, same), (e, good, agreed)))
        | inr other ↦
            inl (ground (arith, mark_published-published now row.id id s.outbox, before, other))
      ]

  -- If every claimed row parses and is confirmed, the loop counts them all …
  publish_rows-count :
      (now : ℕ) (rows : List OutboxRow) (s : Relay)
      → All IsSendable rows
      → (publish_rows host confirms false now rows s).0 ≡ ok (s.published + length rows)
  unfolding publish_rows
  publish_rows-count now [] s h = ground arith
  publish_rows-count now (row ∷ rows) s ((e, good, agreed), h) =
      ground (arith, good, agreed, publish_rows-count now rows (sent_row now row e s) h)

  -- … and publishes each one that is in the outbox.
  publish_rows-published :
      (now id : ℕ) (rows : List OutboxRow) (s : Relay)
      → All IsSendable rows
      → has_row id s.outbox ≡ true
      → (is_published id s.outbox || has_row id rows) ≡ true
      → is_published id (publish_rows host confirms false now rows s).1.outbox ≡ true
  unfolding publish_rows
  publish_rows-published now id [] s h there h_id = ground arith
  publish_rows-published now id (row ∷ rows) s ((e, good, agreed), h) there h_id = ground (
    arith,
    good,
    agreed,
    mark_published-published now row.id id s.outbox,
    mark_published-has_row now row.id id s.outbox,
    there,
    h_id,
    publish_rows-published now id rows (sent_row now row e s) h,
  )

  -- The loop's state before the first publish.
  abbrev started : RelayOptions → List ℕ → List OutboxRow → Relay
  started opts locked table = record {
    outbox = count_attempts (select_rows opts locked table) table;
    confirmed = [];
    published = 0;
  }

  -- A row that is published after a run of the relay was published before it, or was claimed by it,
  -- and then its payload is an event that the broker has confirmed.
  pub relay_outbox-Confirmed :
      (opts : RelayOptions) (locked : List ℕ) (now id : ℕ) (table : List OutboxRow)
      → is_published id (relay_outbox host confirms opts locked now table).1.outbox ≡ true
      → (is_published id table ≡ true) ⊎ Confirmed id (select_rows opts locked table)
  unfolding relay_outbox
  relay_outbox-Confirmed opts locked now id table h =
      elim (publish_rows-Confirmed opts.crash_after_publish now id _ _ h) [
        | inl before ↦
            inl (sym (count_attempts-published id (select_rows opts locked table) table) ∙ before)
        | inr confirmed ↦ inr confirmed
      ]

  -- If every row that is claimed holds an event that the broker confirms, and the relay does not
  -- crash, then it returns the number of claimed rows, and every one of them is published.
  pub relay_outbox-total :
      (opts : RelayOptions) (locked : List ℕ) (now : ℕ) (table : List OutboxRow)
      → opts.crash_after_publish ≡ false
      → All IsSendable (select_rows opts locked table)
      → ((relay_outbox host confirms opts locked now table).0
          ≡ ok (length (select_rows opts locked table)))
        × ((id : ℕ)
            → has_row id (select_rows opts locked table) ≡ true
            → is_published id (relay_outbox host confirms opts locked now table).1.outbox ≡ true)
  unfolding relay_outbox
  relay_outbox-total opts locked now table whole h = (
    ground (
      arith,
      whole,
      publish_rows-count now (select_rows opts locked table) (started opts locked table) h,
    ),
    λ id there. ground (
      arith,
      whole,
      publish_rows-published now id (select_rows opts locked table) (started opts locked table) h,
      count_attempts-has_row id (select_rows opts locked table) table,
      any-select_rows (λ r. r.id == id) opts locked table,
      there,
    ),
  )
