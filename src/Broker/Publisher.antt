-- ===== src/Broker/Publisher.antt =====
-- broker/order-placed-publisher.service.ts and broker/publish-order-placed.ts: the connection of the
-- API process to the broker, the chain of sends over it, and the timer of the relay.
pub mod Single
pub mod Reached
pub mod Strays
use course_project.Base.{
  ℕ, suc, ◌-◌, ◌==◌, ◌≡◌, ◌<◌, Bool, true, false, not, ◌&&◌, Option, none, some, List, [], ◌∷◌, any,
  filter, if◌then◌else◌,
}

-- Where the job at the head of the promise chain `tail` is: there is none, it waits in `ensure` for
-- a connection that is being opened, it waits for the broker's confirm, or it closes its connection.
pub data Sending : Type 0 where
  idle : Sending
  waiting confirming closing : ℕ → Sending

-- The fields of the service. Connections are numbered in the order of the calls of
-- `ConfirmedPublisher.open`; `opens` are those that are being opened, `live` those that are open with
-- their channel, `strays` those that are open without it, `queued` counts the jobs behind the head of the chain, and `relays`
-- the calls of `relayOutbox` that are under way.
pub record Service : Type 0 where
  pub publisher : Option ℕ
  pub opening : Option ℕ
  pub disposed : Bool
  pub ticking : Bool
  pub sending : Sending
  pub queued : ℕ
  pub opens : List ℕ
  pub relays : ℕ
  pub live : List ℕ
  pub strays : List ℕ
  pub next : ℕ

abbrev pub is_connection : Option ℕ → ℕ → Bool
is_connection none c = false
is_connection (some d) c = d == c

-- `if (this.publisher === publisher) this.publisher = null`
abbrev pub forget : ℕ → Option ℕ → Option ℕ
forget c publisher = if is_connection publisher c then none else publisher

abbrev pub without : ℕ → List ℕ → List ℕ
without c = filter λ d. not (d == c)

-- `ensure` where there is no publisher
abbrev pub open_by : Option ℕ → Service → Service
open_by (some c) s = record s { sending = waiting c }
open_by none s = record s {
  sending = waiting s.next;
  opening = some s.next;
  opens = s.next ∷ s.opens;
  next = suc s.next;
}

abbrev pub ensure_by : Option ℕ → Service → Service
ensure_by (some c) s = record s { sending = confirming c }
ensure_by none s = open_by s.opening s

-- `send`, up to the first wait, for the job that comes to the head of the chain
unfoldable pub send : Service → Service
send s = ensure_by s.publisher (record s { queued = s.queued - 1 })

-- `.then((publisher) => …)` and `.finally(…)` on connection `c`; a job that waits for it sends over
-- it.
abbrev pub resume : ℕ → Sending → Sending
resume c (waiting d) = if c == d then confirming c else waiting d
resume c phase = phase

unfoldable pub on_open : ℕ → Service → Service
on_open c s = record s {
  publisher = some c;
  opening = none;
  opens = without c s.opens;
  sending = resume c s.sending;
  live = c ∷ s.live;
}

-- The open is refused, and a job that waits for it throws.
abbrev pub give_up : ℕ → Sending → Sending
give_up c (waiting d) = if c == d then idle else waiting d
give_up c phase = phase

unfoldable pub on_open_error : ℕ → Service → Service
on_open_error c s = record s {
  opening = none;
  opens = without c s.opens;
  sending = give_up c s.sending;
}

-- The `catch` of `send`
unfoldable pub on_refused : ℕ → Service → Service
on_refused c s = record s { publisher = forget c s.publisher; sending = closing c }

unfoldable pub on_closed : ℕ → Service → Service
on_closed c s = record s { sending = idle; live = without c s.live; strays = without c s.strays }

-- `onDrop` for a connection that is gone
unfoldable pub on_drop : ℕ → Service → Service
on_drop c s = record s {
  publisher = forget c s.publisher;
  live = without c s.live;
  strays = without c s.strays;
}

-- `onDrop` for a channel that the broker has closed; its connection stays open
unfoldable pub on_channel_lost : ℕ → Service → Service
on_channel_lost c s = record s {
  publisher = forget c s.publisher;
  live = without c s.live;
  strays = c ∷ s.strays;
}

-- `if (current) await current.close()`
abbrev pub close_current : Option ℕ → List ℕ → List ℕ
close_current none live = live
close_current (some c) live = without c live

unfoldable pub on_module_destroy : Service → Service
on_module_destroy s = record s {
  disposed = true;
  opening = none;
  publisher = none;
  live = close_current s.publisher s.live;
  strays = close_current s.publisher s.strays;
}

-- `onModuleInit` calls `ensure` before it starts the timers.
abbrev pub initial : Service
initial = record {
  publisher = none;
  opening = some 0;
  disposed = false;
  ticking = false;
  sending = idle;
  queued = 0;
  opens = 0 ∷ [];
  relays = 0;
  live = [];
  strays = [];
  next = 1;
}

-- What the callers of the service, its timer, the broker and the network do next.
pub data Step (s : Service) : Service → Type 0 where
  -- `confirm` on a service that runs
  confirm : s.disposed ≡ false → Step s (record s { queued = suc s.queued })
  start : s.sending ≡ idle → 0 < s.queued → Step s (send s)
  opened : (c : ℕ) → any (λ d. d == c) s.opens ≡ true → Step s (on_open c s)
  open_failed : (c : ℕ) → any (λ d. d == c) s.opens ≡ true → Step s (on_open_error c s)
  -- Confirms come over a channel that is not lost, and so is still the service's.
  confirmed :
      (c : ℕ)
      → s.sending ≡ confirming c
      → s.publisher ≡ some c
      → Step s (record s { sending = idle })
  refused : (c : ℕ) → s.sending ≡ confirming c → Step s (on_refused c s)
  closed : (c : ℕ) → s.sending ≡ closing c → Step s (on_closed c s)
  dropped : (c : ℕ) → Step s (on_drop c s)
  channel_lost : (c : ℕ) → any (λ d. d == c) s.live ≡ true → Step s (on_channel_lost c s)
  -- `tick` by the timer; one that finds `ticking` or `disposed` returns at once.
  tick :
      s.ticking ≡ false
      → s.disposed ≡ false
      → Step s (record s { ticking = true; relays = suc s.relays })
  -- The `finally` of `tick`
  tick_end : 0 < s.relays → Step s (record s { ticking = false; relays = s.relays - 1 })
  destroy : Step s (on_module_destroy s)

pub data Reach (s : Service) : Service → Type 0 where
  here : Reach s s
  later : {t u : Service} → Reach s t → Step t u → Reach s u
