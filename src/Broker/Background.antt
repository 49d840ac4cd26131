-- ===== src/Broker/Background.antt =====
-- broker/consume-order-placed.ts: the life of the background consumer's connections, in
-- `startBackgroundConsumer`, `open` and `safeClose`.
pub mod Owned
pub mod Reached
use course_project.Base.{
  ℕ, suc, ◌==◌, ◌≡◌, Bool, true, false, Option, none, some, List, [], ◌∷◌, ◌++◌, any, if◌then◌else◌,
}
use course_project.Broker.Publisher.{without, close_current}

-- Where the loop is: it waits for `connect`, for the channel and the topology of a connection, in
-- `attach`, in the `safeClose` of `finally`, for its timer, or it has ended.
pub data Stage : Type 0 where
  opening attached waiting ended : Stage
  preparing : ℕ → Stage
  closing : Option ℕ → Stage

-- The variables of the call. Connections are numbered; `live` are those that are open and that neither
-- side has closed, `closers` those that calls of `close` are closing. `forgotten` keeps account of the
-- connections whose set-up has failed.
pub record Background : Type 0 where
  pub stopped : Bool
  pub current : Option ℕ
  pub stage : Stage
  pub closers : List ℕ
  pub forgotten : List ℕ
  pub live : List ℕ
  pub next : ℕ

-- The first connection is set up, or the call throws. The loop runs into `attach`.
abbrev pub started : Background
started = record {
  stopped = false;
  current = some 0;
  stage = attached;
  closers = [];
  forgotten = [];
  live = 0 ∷ [];
  next = 1;
}

-- `if (stopped) break`, or the timer
abbrev pub after_finally : Bool → Stage
after_finally stopped = if stopped then ended else waiting

-- `await connect(brokerUrl)`
unfoldable pub on_connected : Background → Background
on_connected s = record s { stage = preparing s.next; live = s.next ∷ s.live; next = suc s.next }

-- There is no connection, so `finally` closes none.
unfoldable pub on_connect_failed : Background → Background
on_connect_failed s = record s { stage = after_finally s.stopped }

-- `current = await open(…)`; behind a `close`, the loop breaks and `finally` takes the connection.
unfoldable pub on_prepared : ℕ → Background → Background
on_prepared c s = record s {
  current = if s.stopped then none else some c;
  stage = if s.stopped then closing (some c) else attached;
}

-- `open` throws behind `connect`, and `finally` finds no `current` to close.
unfoldable pub on_prepare_failed : ℕ → Background → Background
on_prepare_failed c s = record s { stage = after_finally s.stopped; forgotten = c ∷ s.forgotten }

-- `attach` throws: `finally` takes what `close` has left.
unfoldable pub on_detached : Background → Background
on_detached s = record s { current = none; stage = closing s.current }

unfoldable pub on_dying_closed : Option ℕ → Background → Background
on_dying_closed dying s = record s {
  stage = after_finally s.stopped;
  live = close_current dying s.live;
}

-- `wakeRestart?.()` ends the wait for the timer, and `while (!stopped)` the loop.
abbrev pub woken : Stage → Stage
woken waiting = ended
woken stage = stage

abbrev pub taken : Option ℕ → List ℕ → List ℕ
taken none closers = closers
taken (some c) closers = c ∷ closers

-- `close`, up to its `safeClose`
unfoldable pub on_close : Background → Background
on_close s = record s {
  stopped = true;
  current = none;
  stage = woken s.stage;
  closers = taken s.current s.closers;
}

unfoldable pub on_close_done : ℕ → List ℕ → Background → Background
on_close_done c closers s = record s { closers = closers; live = without c s.live }

-- What the loop, the callers of `close`, the broker and the network do next.
pub data Turn (s : Background) : Background → Type 0 where
  connected : s.stage ≡ opening → Turn s (on_connected s)
  connect_failed : s.stage ≡ opening → Turn s (on_connect_failed s)
  prepared : (c : ℕ) → s.stage ≡ preparing c → Turn s (on_prepared c s)
  prepare_failed : (c : ℕ) → s.stage ≡ preparing c → Turn s (on_prepare_failed c s)
  detached : s.stage ≡ attached → Turn s (on_detached s)
  dying_closed : (dying : Option ℕ) → s.stage ≡ closing dying → Turn s (on_dying_closed dying s)
  timer : s.stage ≡ waiting → Turn s (record s { stage = opening })
  close : Turn s (on_close s)
  close_done :
      (c : ℕ) (closers : List ℕ) → s.closers ≡ c ∷ closers → Turn s (on_close_done c closers s)
  -- The network or the broker drops a connection.
  lost : (c : ℕ) → Turn s (record s { live = without c s.live })

pub data Runs (s : Background) : Background → Type 0 where
  here : Runs s s
  later : {t u : Background} → Runs s t → Turn t u → Runs s u
