-- ===== src/Broker/Background/Owned.antt =====
-- broker/consume-order-placed.ts: who will close a connection of the background consumer.
use course_project.Base.{
  ℕ, ◌+◌, ◌≤◌, ◌==◌, ◌≡◌, Bool, true, false, ◌||◌, Option, none, some, List, [], ◌∷◌, any, length,
  arith,
}
use course_project.Broker.Background.{
  Stage, opening, attached, waiting, ended, preparing, closing, Background, on_connected,
  on_connect_failed, on_prepared, on_prepare_failed, on_detached, on_dying_closed, on_close,
  on_close_done, Turn,
}

-- The states of the loop, `current`, the calls of `close` and `stopped` that go together.
abbrev pub fits : Stage → Option ℕ → List ℕ → Bool → Bool
fits opening none [] stopped = true
fits (preparing c) none [] stopped = true
fits attached (some c) [] false = true
fits attached none [] true = true
fits attached none (c ∷ []) true = true
fits (closing (some c)) none [] stopped = true
fits (closing none) none [] true = true
fits (closing none) none (c ∷ []) true = true
fits waiting none [] false = true
fits ended none [] true = true
fits ended none (c ∷ []) true = true
fits _ _ _ _ = false

abbrev pub is_some : Option ℕ → ℕ → Bool
is_some none c = false
is_some (some d) c = d == c

abbrev pub is_in_stage : Stage → ℕ → Bool
is_in_stage (preparing d) c = d == c
is_in_stage (closing dying) c = is_some dying c
is_in_stage _ c = false

abbrev pub is_in : List ℕ → ℕ → Bool
is_in xs c = any (λ d. d == c) xs

-- The loop, `current` or a call of `close` has the connection.
abbrev pub is_owned : Background → ℕ → Bool
is_owned s c = is_in_stage s.stage c || is_some s.current c || is_in s.closers c

-- How many connections they have together.
abbrev pub in_option : Option ℕ → ℕ
in_option none = 0
in_option (some c) = 1

abbrev pub in_stage : Stage → ℕ
in_stage (preparing c) = 1
in_stage (closing dying) = in_option dying
in_stage _ = 0

abbrev pub owned_count : Background → ℕ
owned_count s = in_stage s.stage + in_option s.current + length s.closers

pub fits-count :
    (stage : Stage) (current : Option ℕ) (closers : List ℕ) (stopped : Bool)
    → fits stage current closers stopped ≡ true
    → in_stage stage + in_option current + length closers ≤ 1
fits-count stage current closers stopped h = ground (arith, h)

pub Turn-fits :
    (s t : Background)
    → Turn s t
    → fits s.stage s.current s.closers s.stopped ≡ true
    → fits t.stage t.current t.closers t.stopped ≡ true
unfolding on_connected on_connect_failed on_prepared on_prepare_failed on_detached on_dying_closed
    on_close on_close_done
Turn-fits s _ (Turn.connected e) h = ground (arith, e, h)
Turn-fits s _ (Turn.connect_failed e) h = ground (arith, e, h)
Turn-fits s _ (Turn.prepared c e) h = ground (arith, e, h)
Turn-fits s _ (Turn.prepare_failed c e) h = ground (arith, e, h)
Turn-fits s _ (Turn.detached e) h = ground (arith, e, h)
Turn-fits s _ (Turn.dying_closed dying e) h = ground (arith, e, h)
Turn-fits s _ (Turn.timer e) h = ground (arith, e, h)
Turn-fits s _ Turn.close h = ground (arith, h)
Turn-fits s _ (Turn.close_done c closers e) h = ground (arith, e, h)
Turn-fits s _ (Turn.lost c) h = h
