-- ===== src/Broker/Consumer.antt =====
-- broker/consume-order-placed.ts: the handlers of `attach`, which run one after another on a
-- promise chain, and the calls that start them.
pub mod Exact
use course_project.Base.{
  ℕ, suc, ◌+◌, ◌≡◌, Bool, true, false, ◌&&◌, leb, if◌then◌else◌, Option, none, some, List, [], ◌∷◌,
  ◌++◌, Result, ok, err,
}
use course_project.Js.{Host}
use course_project.Db.Rows.{Db}
use course_project.Broker.Event.{OrderPlacedEvent, BadEvent, parse_order_placed}
use course_project.Broker.Effects.{Applied, Outage, apply_order_placed}

pub record ConsumerStats : Type 0 where
  pub delivered : ℕ
  pub acked : ℕ
  pub rejected : ℕ

pub record Options : Type 0 where
  pub crash_before_ack : Bool
  pub stop_after : Option ℕ

-- The promise of `attach`, and whether a handler waits for ever (`crashBeforeAck`).
pub data Phase : Type 0 where
  running hung succeeded failed : Phase

-- What the broker is told of a message. One that is not told anything is delivered again once the
-- channel closes, as is one that is requeued; a rejected one goes to the dead-letter queue.
pub data Verdict : Type 0 where
  ack reject requeue silence : Verdict

pub record Consumer : Type 0 where
  pub stats : ConsumerStats
  pub phase : Phase
  pub verdicts : List Verdict
  pub db : Db

abbrev pub reached : Option ℕ → ConsumerStats → Bool
reached none stats = false
reached (some n) stats = leb n (stats.acked + stats.rejected)

-- `if (opts.stopAfter !== undefined && …) succeed()`
abbrev pub after_verdict : Options → Consumer → Consumer
after_verdict opts c = record c {
  phase = if reached opts.stop_after c.stats then succeeded else running;
}

-- What follows `applyOrderPlaced`.
abbrev pub on_applied :
    Options → ConsumerStats → List Verdict → Result Outage Applied × Db → Consumer
on_applied opts stats verdicts (ok _, db) =
    if opts.crash_before_ack
    then record { stats = stats; phase = hung; verdicts = verdicts ++ silence ∷ []; db = db }
    else after_verdict opts (record {
      stats = record stats { acked = suc stats.acked };
      phase = running;
      verdicts = verdicts ++ ack ∷ [];
      db = db;
    })
on_applied opts stats verdicts (err _, db) = record {
  stats = stats;
  phase = failed;
  verdicts = verdicts ++ requeue ∷ [];
  db = db;
}

abbrev pub on_parsed :
    Options → ConsumerStats → List Verdict → Bool → Db → Result BadEvent OrderPlacedEvent → Consumer
on_parsed opts stats verdicts fails db (err _) = after_verdict opts (record {
  stats = record stats { rejected = suc stats.rejected };
  phase = running;
  verdicts = verdicts ++ reject ∷ [];
  db = db;
})
on_parsed opts stats verdicts fails db (ok event) =
    on_applied opts stats verdicts (apply_order_placed fails event db)

module _ (host : Host) where
  -- A message with what the environment does to the transaction of its effect.
  pub record Message : Type 0 where
    pub body : host.Body
    pub fails : Bool

  -- One link of the chain. Behind a settled promise it returns at once; behind a hung one it never
  -- starts.
  abbrev pub handle_in : Options → Phase → Message → Consumer → Consumer
  handle_in opts running msg c =
      on_parsed opts (record (c.stats) { delivered = suc c.stats.delivered }) c.verdicts msg.fails
        c.db (parse_order_placed host msg.body)
  handle_in opts _ msg c = record c { verdicts = c.verdicts ++ silence ∷ [] }

  unfoldable pub handle : Options → Message → Consumer → Consumer
  handle opts msg c = handle_in opts c.phase msg c

  -- The deliveries of one channel, in order.
  unfoldable pub attach : Options → List Message → Consumer → Consumer
  attach opts [] c = c
  attach opts (msg ∷ msgs) c = attach opts msgs (handle opts msg c)

-- `const stats = { delivered: 0, acked: 0, rejected: 0 }` and a fresh promise
abbrev pub fresh : Db → Consumer
fresh db = record {
  stats = record { delivered = 0; acked = 0; rejected = 0 };
  phase = running;
  verdicts = [];
  db = db;
}

module _ (host : Host) where
  -- `runBoundedConsumer`: `attach` with `stopAfter`; the messages are those that come within the
  -- timeout, and the statistics are returned.
  unfoldable pub run_bounded_consumer : ℕ → List (Message host) → Db → Consumer
  unfolding attach
  run_bounded_consumer stop_after msgs db =
      attach host (record { crash_before_ack = false; stop_after = some stop_after }) msgs
        (fresh db)

  -- The loop of `startBackgroundConsumer`: each round opens a channel, which gets the messages of
  -- one list, with fresh statistics.
  unfoldable pub background_consumer : Bool → List (List (Message host)) → Db → Db
  unfolding attach
  background_consumer crash [] db = db
  background_consumer crash (msgs ∷ rounds) db =
      background_consumer crash rounds
        (attach host (record { crash_before_ack = crash; stop_after = none }) msgs (fresh db)).db
