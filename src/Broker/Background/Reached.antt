-- ===== src/Broker/Background/Reached.antt =====
-- broker/consume-order-placed.ts: the connections of the background consumer, in every run.
use course_project.Base.{
  ℕ, zero, suc, ◌≤◌, ◌==◌, ◌≡◌, ◌⊎◌, refl, ap, Bool, true, false, ◌||◌, Option, none, some, List,
  [], ◌∷◌, length, arith, All, All-imp, inl, inr, Bool-cases,
}
use course_project.Broker.Background.{
  Stage, opening, waiting, ended, Background, started, after_finally, on_connected,
  on_connect_failed, on_prepared, on_prepare_failed, on_detached, on_dying_closed, woken, on_close,
  on_close_done, Turn, Runs,
}
use course_project.Broker.Background.Owned.{
  fits, is_in, is_owned, owned_count, fits-count, Turn-fits,
}
use course_project.Broker.Publisher.{without}

-- Whoever has the connection will close it; or its set-up has failed.
abbrev pub IsKnown : Background → ℕ → Type 0
IsKnown s c = (is_owned s c || is_in s.forgotten c) ≡ true

All-without {ℓ κ} :
    (P : ℕ → Type ℓ) (Q : ℕ → Type κ) (c : ℕ) (live : List ℕ)
    → ((d : ℕ) → (d == c) ≡ false → P d → Q d)
    → All P live
    → All Q (without c live)
All-without P Q c [] f h = tt
All-without P Q c (d ∷ live) f h = elim (Bool-cases (d == c)) [
  | inl same ↦ rw same (All-without P Q c live f h.1)
  | inr other ↦ rw other (f d other h.0, All-without P Q c live f h.1)
]

Turn-IsKnown :
    (s t : Background)
    → Turn s t
    → fits s.stage s.current s.closers s.stopped ≡ true
    → All (IsKnown s) s.live
    → All (IsKnown t) t.live
unfolding on_connected on_connect_failed on_prepared on_prepare_failed on_detached on_dying_closed
    on_close on_close_done
Turn-IsKnown s _ (Turn.connected e) h k = (
  ground arith,
  All-imp (IsKnown s) (IsKnown (on_connected s)) s.live (λ c p. ground (arith, p, e, h)) k,
)
Turn-IsKnown s _ (Turn.connect_failed e) h k =
    All-imp (IsKnown s) (IsKnown (on_connect_failed s)) s.live (λ c p. ground (arith, p, e, h)) k
Turn-IsKnown s _ (Turn.prepared d e) h k =
    All-imp (IsKnown s) (IsKnown (on_prepared d s)) s.live (λ c p. ground (arith, p, e, h)) k
Turn-IsKnown s _ (Turn.prepare_failed d e) h k =
    All-imp (IsKnown s) (IsKnown (on_prepare_failed d s)) s.live (λ c p. ground (arith, p, e, h)) k
Turn-IsKnown s _ (Turn.detached e) h k =
    All-imp (IsKnown s) (IsKnown (on_detached s)) s.live (λ c p. ground (arith, p, e, h)) k
Turn-IsKnown s _ (Turn.dying_closed none e) h k =
    All-imp (IsKnown s) (IsKnown (on_dying_closed none s)) s.live (λ c p. ground (arith, p, e, h)) k
Turn-IsKnown s _ (Turn.dying_closed (some d) e) h k =
    All-without (IsKnown s) (IsKnown (on_dying_closed (some d) s)) d s.live
      (λ c other p. ground (arith, other, p, e, h)) k
Turn-IsKnown s _ (Turn.timer e) h k =
    All-imp (IsKnown s) (IsKnown (record s { stage = opening })) s.live
      (λ c p. ground (arith, p, e, h)) k
Turn-IsKnown s _ Turn.close h k =
    All-imp (IsKnown s) (IsKnown (on_close s)) s.live (λ c p. ground (arith, p, h)) k
Turn-IsKnown s _ (Turn.close_done d closers e) h k =
    All-without (IsKnown s) (IsKnown (on_close_done d closers s)) d s.live
      (λ c other p. ground (arith, other, p, e, h)) k
Turn-IsKnown s _ (Turn.lost d) h k =
    All-without (IsKnown s) (IsKnown (record s { live = without d s.live })) d s.live
      (λ c other p. p) k

Runs-fits :
    (s : Background)
    → Runs started s
    → (fits s.stage s.current s.closers s.stopped ≡ true) × All (IsKnown s) s.live
Runs-fits _ Runs.here = (refl, (refl, tt))
Runs-fits u (Runs.later {t} run turn) =
    let (h, k) = Runs-fits t run in (Turn-fits t u turn h, Turn-IsKnown t u turn h k)

abbrev pub is_ended : Stage → Bool
is_ended ended = true
is_ended _ = false

fits-ended :
    (stage : Stage) (current : Option ℕ) (closers : List ℕ) (stopped : Bool)
    → fits stage current closers stopped ≡ true
    → (is_ended stage ≡ false) ⊎ (stopped ≡ true) × (current ≡ none)
fits-ended stage current closers stopped h = elim (Bool-cases (is_ended stage)) [
  | inl e ↦ inr (ground (arith, h, e), ground (arith, h, e))
  | inr e ↦ inl e
]

-- Whatever the callers of `close`, the broker and the network do, every open connection is one that
-- the loop, `current` or a call of `close` has, or one whose set-up has failed; they have at most one
-- together; and the loop ends only behind a call of `close`, with no `current`.
pub Runs-owned :
    (s : Background)
    → Runs started s
    → All (IsKnown s) s.live
      × (owned_count s ≤ 1)
      × ((is_ended s.stage ≡ false) ⊎ (s.stopped ≡ true) × (s.current ≡ none))
Runs-owned s run =
    let (h, k) = Runs-fits s run in
    (
      k,
      fits-count s.stage s.current s.closers s.stopped h,
      fits-ended s.stage s.current s.closers s.stopped h,
    )

-- The loop waits to open the next connection, and `n` connections are open.
record IsWaiting (n : ℕ) (s : Background) : Type 0 where
  stage : s.stage ≡ waiting
  running : s.stopped ≡ false
  free : s.current ≡ none
  idle : s.closers ≡ []
  open_ones : length s.live ≡ n

waits : (n : ℕ) → (s : Background) × Runs started s × IsWaiting n s
unfolding on_connected on_prepare_failed on_detached on_dying_closed
waits zero =
    let dropped : Background = record started { live = [] } in
    let dying = on_detached dropped in
    (
      on_dying_closed (some 0) dying,
      Runs.later (Runs.later (Runs.later Runs.here (Turn.lost 0)) (Turn.detached refl))
          (Turn.dying_closed (some 0) refl),
      record { stage = refl; running = refl; free = refl; idle = refl; open_ones = refl },
    )
waits (suc n) =
    let (s, run, w) = waits n in
    let trying : Background = record s { stage = opening } in
    let bare = on_connected trying in
    (
      on_prepare_failed s.next bare,
      Runs.later (Runs.later (Runs.later run (Turn.timer w.stage)) (Turn.connected refl))
          (Turn.prepare_failed s.next refl),
      record {
        stage = ap after_finally w.running;
        running = w.running;
        free = w.free;
        idle = w.idle;
        open_ones = omega (arith, w.open_ones);
      },
    )

-- If the broker accepts connections and their set-up fails, then any number of connections is open
-- when the consumer has been closed, and nobody has them.
pub Runs-forgets :
    (n : ℕ)
    → (s : Background) × Runs started s
      × (s.stage ≡ ended)
      × (owned_count s ≡ 0)
      × (length s.live ≡ n)
unfolding on_close
Runs-forgets n =
    let (s, run, w) = waits n in
    (
      on_close s,
      Runs.later run Turn.close,
      ap woken w.stage,
      ground (arith, w.stage, w.free, w.idle),
      w.open_ones,
    )
