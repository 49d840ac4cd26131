-- ===== src/Outbox/Relay.antt =====
-- outbox/relay.ts: the relay from the outbox to the broker.
use course_project.Base.{
  ℕ, suc, ◌+◌, Bool, true, false, not, ◌&&◌, ◌||◌, ltb, ◌==◌, if◌then◌else◌, Option, none, some,
  List, [], ◌∷◌, ◌++◌, any, filter, take, update, Result, ok, err,
}
use course_project.Js.{Json, str, Host}
use course_project.Db.Rows.{OutboxRow}
use course_project.Broker.Event.{OrderPlacedEvent, BadEvent, parse_order_placed}

-- What `relayOutbox` throws: its own crash, a payload that is no event, and whatever `publish`
-- throws when the broker does not confirm.
pub data RelayError : Type 0 where
  relay_crashed not_confirmed : RelayError
  bad_payload : BadEvent → RelayError

abbrev pub relay_batch : ℕ
relay_batch = 10

pub record RelayOptions : Type 0 where
  pub limit : Option ℕ
  pub crash_after_publish : Bool
  pub aggregate_id : Option ℕ

-- `published_at IS NULL AND ($2::text IS NULL OR aggregate_id = $2)`
abbrev pub is_unpublished : OutboxRow → Bool
is_unpublished row = elim row.published_at [ none ↦ true | some _ ↦ false ]

abbrev pub is_wanted : Option ℕ → OutboxRow → Bool
is_wanted none row = true
is_wanted (some id) row = row.aggregate_id == id

-- `ORDER BY created_at, id`
abbrev pub is_before : OutboxRow → OutboxRow → Bool
is_before a b = ltb a.created_at b.created_at || (a.created_at == b.created_at && ltb a.id b.id)

unfoldable pub insert_row : OutboxRow → List OutboxRow → List OutboxRow
insert_row row [] = row ∷ []
insert_row row (r ∷ rows) = if is_before row r then row ∷ r ∷ rows else r ∷ insert_row row rows

unfoldable pub order_rows : List OutboxRow → List OutboxRow
order_rows [] = []
order_rows (row ∷ rows) = insert_row row (order_rows rows)

abbrev pub limit_of : RelayOptions → ℕ
limit_of opts = elim opts.limit [ none ↦ relay_batch | some n ↦ n ]

-- The `SELECT … FOR UPDATE SKIP LOCKED LIMIT`; `locked` are the ids that another transaction holds.
unfoldable pub select_rows : RelayOptions → List ℕ → List OutboxRow → List OutboxRow
select_rows opts locked rows = take (limit_of opts) (
    order_rows (
      filter
        (λ row.
          is_unpublished row
          && is_wanted opts.aggregate_id row
          && not (any (λ id. id == row.id) locked))
        rows))

-- `UPDATE outbox SET attempts = attempts + 1 WHERE id = $1`, for every row that was selected
unfoldable pub count_attempts : List OutboxRow → List OutboxRow → List OutboxRow
count_attempts [] table = table
count_attempts (row ∷ rows) table =
    count_attempts rows (
      update (λ (r : OutboxRow). r.id == row.id) (λ r. record r { attempts = suc r.attempts })
        table)

-- `UPDATE outbox SET published_at = now() WHERE id = $1 AND published_at IS NULL`
unfoldable pub mark_published : ℕ → ℕ → List OutboxRow → List OutboxRow
mark_published now id =
    update (λ (r : OutboxRow). r.id == id && is_unpublished r)
      (λ r. record r { published_at = some now })

-- The relay's loop: the outbox, the events that the broker has confirmed, and their number.
pub record Relay : Type 0 where
  pub outbox : List OutboxRow
  pub confirmed : List OrderPlacedEvent
  pub published : ℕ

module _ (host : Host) where
  -- `eventFromPayload`: a payload that is a text is parsed as it stands
  unfoldable pub event_from_payload : Json → Result BadEvent OrderPlacedEvent
  event_from_payload (str t) = parse_order_placed host (host.body_of_text t)
  event_from_payload payload = parse_order_placed host (host.stringify payload)

  -- `confirms` says of each event whether the broker confirms it.
  unfoldable pub publish_rows :
      (OrderPlacedEvent → Bool) → Bool → ℕ → List OutboxRow → Relay → Result RelayError ℕ × Relay
  publish_rows confirms crash now [] s = (ok s.published, s)
  publish_rows confirms crash now (row ∷ rows) s = elim (event_from_payload row.payload) [
    | err e ↦ (err (bad_payload e), s)
    | ok event ↦
        let sent : Relay = record s {
          confirmed = s.confirmed ++ event ∷ [];
          published = suc s.published;
        } in
        let rest =
          publish_rows confirms crash now rows
            (record sent { outbox = mark_published now row.id s.outbox }) in
        if not (confirms event)
        then (err not_confirmed, s)
        else if crash
        then (err relay_crashed, sent)
        else rest
  ]

  -- The claim commits before the first publish.
  unfoldable pub relay_outbox :
      (OrderPlacedEvent → Bool)
      → RelayOptions
      → List ℕ
      → ℕ
      → List OutboxRow
      → Result RelayError ℕ × Relay
  relay_outbox confirms opts locked now table =
      let claimed = select_rows opts locked table in
      publish_rows confirms opts.crash_after_publish now claimed
        (record { outbox = count_attempts claimed table; confirmed = []; published = 0 })

-- `purgePublishedOutbox`; a week in the unit of the clock
unfoldable pub purge_published_outbox : ℕ → ℕ → List OutboxRow → List OutboxRow
purge_published_outbox week now =
    filter
      λ (r : OutboxRow). elim r.published_at [ none ↦ true | some t ↦ not (ltb (t + week) now) ]
