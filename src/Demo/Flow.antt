-- ===== src/Demo/Flow.antt =====
-- demo-outbox.ts: two requests with one key over HTTP, one run of the relay, one bounded consumer.
use course_project.Base.{
  ℕ, ◌+◌, ◌==◌, Bool, true, false, ◌&&◌, none, some, [], ◌∷◌, map, Result, ok, err,
}
use course_project.Base.Text.{Text, codes}
use course_project.Broker.Consumer.{Message, Consumer, failed, run_bounded_consumer}
use course_project.Broker.Event.{OrderPlacedEvent, event_json}
use course_project.Checkout.Steps.{Clock}
use course_project.Db.Rows.{Db}
use course_project.Demo.{Fixture, NextIds, Measured, measure, prepare_demo}
use course_project.Idempotency.{
  key_ttl, Records, Reply, passed, started, replayed, complete, intercept,
}
use course_project.Js.{Json, num, int, obj, arr, field, end, cons, nil, Host}
use course_project.Base.Int.{pos}
use course_project.Orders.Service.{HttpOrder, CreateOrderDto, ServiceError, create_order}
use course_project.Outbox.Relay.{RelayError, RelayOptions, Relay, relay_outbox}

abbrev pub demo_key : Text
demo_key = codes "demo:outbox:key"

-- The API process: the interceptor's map and the database.
pub record Server : Type 0 where
  pub records : Records HttpOrder
  pub db : Db

-- The status of the response is not 201, the relay throws, the consumer throws.
pub data DemoError : Type 0 where
  not_created relay_failed consumer_failed : DemoError

abbrev pub order_id_of : HttpOrder → ℕ
order_id_of o = o.id

abbrev pub HttpReply : Type 0
HttpReply = Result DemoError ℕ

-- What the handler's response does to the interceptor's map, where the key is in flight
abbrev pub on_handled :
    Text
    → Text
    → ℕ
    → Records HttpOrder
    → Result ServiceError (HttpOrder × Text) × Db
    → HttpReply × Server
on_handled k fingerprint now records (err e, db) =
    (err not_created, record { records = records; db = db })
on_handled k fingerprint now records (ok (order, location), db) = (
  ok order.id,
  record { records = complete k fingerprint (now + key_ttl) (some order) records; db = db },
)

abbrev pub on_passed :
    Records HttpOrder → Result ServiceError (HttpOrder × Text) × Db → HttpReply × Server
on_passed records (err e, db) = (err not_created, record { records = records; db = db })
on_passed records (ok (order, location), db) = (ok order.id, record { records = records; db = db })

module _ (host : Host) where
  -- The interceptor's reply, with the controller behind it
  abbrev pub on_reply :
      ℕ
      → Clock
      → Text
      → CreateOrderDto
      → Db
      → Reply HttpOrder × Records HttpOrder
      → HttpReply × Server
  on_reply now clock key dto db (passed, records) =
      on_passed records (create_order host dto (some key) clock db)
  on_reply now clock key dto db (started k fingerprint, records) =
      on_handled k fingerprint now records (create_order host dto (some key) clock db)
  on_reply now clock key dto db (replayed (some order) _, records) =
      (ok order.id, record { records = records; db = db })
  on_reply now clock key dto db (_, records) =
      (err not_created, record { records = records; db = db })

  -- `postOrder`: the id in the response to `POST /orders` with the key in its header
  unfoldable pub post_order : ℕ → Clock → Text → CreateOrderDto → Server → HttpReply × Server
  post_order now clock key dto s =
      on_reply now clock key dto s.db
        (intercept order_id_of host now true (some key) (some dto.json) s.records)

  -- `publish`: the body of the message for an event that the broker has confirmed
  abbrev pub message_of : OrderPlacedEvent → Message host
  message_of event = record { body = host.stringify (event_json event); fails = false }

pub record DemoRows : Type 0 where
  pub requests : ℕ
  pub orders : ℕ
  pub outbox : ℕ
  pub published : ℕ
  pub deliveries : ℕ
  pub effect : ℕ
  pub processed : ℕ

-- `const ok = rows.requests === 2 && …`
unfoldable pub demo_ok : DemoRows → Bool
demo_ok rows =
    rows.requests == 2
    && rows.orders == 1
    && rows.outbox == 1
    && rows.published == 1
    && rows.deliveries == 1
    && rows.effect == 1
    && rows.processed == 1

-- `rows` at the end of the `try`
abbrev pub demo_rows : ℕ → Measured → DemoRows
demo_rows published m = record {
  requests = 2;
  orders = m.orders;
  outbox = m.outbox;
  published = published;
  deliveries = m.deliveries;
  effect = m.effect;
  processed = m.processed;
}

-- The body of both requests
abbrev pub demo_dto : Fixture → CreateOrderDto
demo_dto fixture = record {
  buyer_id = fixture.buyer_id;
  items = (record { product_id = fixture.product_id; quantity = 1 }) ∷ [];
  json = obj (
      field (codes "buyer_id") (num (int (pos fixture.buyer_id))) (
        field (codes "items")
          (arr (
            cons
              (obj (
                field (codes "product_id") (num (int (pos fixture.product_id)))
                  (field (codes "quantity") (num (int (pos 1))) end)))
              nil))
          end));
}

abbrev pub relay_options : ℕ → RelayOptions
relay_options order_id = record {
  limit = none;
  crash_after_publish = false;
  aggregate_id = some order_id;
}

-- A consumer that a transaction has broken throws; one that has waited long enough does not.
abbrev pub on_consumed : Text → ℕ → Consumer → Result DemoError DemoRows
on_consumed key published c = elim c.phase [
  | failed ↦ err consumer_failed
  | _ ↦ ok (demo_rows published (measure key c.db))
]

module _ (host : Host) where
  -- The queue was empty, so the consumer gets the events that the relay has sent.
  abbrev pub on_relayed : Text → Db → Result RelayError ℕ × Relay → Result DemoError DemoRows
  on_relayed key db (err e, relay) = err relay_failed
  on_relayed key db (ok published, relay) = on_consumed key published (
      run_bounded_consumer host 1 (map (message_of host) relay.confirmed)
        (record db { outbox = relay.outbox }))

  module _ (confirms : OrderPlacedEvent → Bool) where
    abbrev pub on_second : Text → ℕ → HttpReply × Server → Result DemoError DemoRows
    on_second key now (err e, s) = err e
    on_second key now (ok order_id, s) =
        on_relayed key s.db (relay_outbox host confirms (relay_options order_id) [] now s.db.outbox)

    abbrev pub on_first :
        Text → ℕ → Clock → CreateOrderDto → HttpReply × Server → Result DemoError DemoRows
    on_first key now clock dto (err e, s) = err e
    on_first key now clock dto (ok order_id, s) =
        on_second key clock.now (post_order host now clock key dto s)

    -- `main`, from a database that `prepareDemo` has left: the two requests arrive at `t` and `u`.
    unfoldable pub demo_outbox :
        ℕ → ℕ → Clock → Clock → CreateOrderDto → Db → Result DemoError DemoRows
    demo_outbox t u first second dto db =
        on_first demo_key u second dto
          (post_order host t first demo_key dto (record { records = []; db = db }))

    -- `main`
    unfoldable pub demo_main :
        (Json → Text) → NextIds → ℕ → ℕ → Clock → Clock → Db → Result DemoError DemoRows
    unfolding demo_outbox
    demo_main as_text next t u first second db =
        let (fixture, prepared) = prepare_demo as_text demo_key next db in
        demo_outbox t u first second (demo_dto fixture) prepared
