-- ===== src/Tests/BackgroundTests.antt =====
-- A background consumer that is closed while it is attached, and one whose broker refuses its queues.
use course_project.Base.{◌≡◌, ◌≤◌, ◌⊎◌, refl, true, false, none, [], length, All}
use course_project.Broker.Background.{
  Background, ended, started, on_detached, on_dying_closed, on_close, on_close_done, Turn, Runs,
}
use course_project.Broker.Background.Owned.{owned_count}
use course_project.Broker.Background.Reached.{IsKnown, is_ended, Runs-owned, Runs-forgets}

abbrev closed_early : Background
unfolding on_close on_detached on_dying_closed on_close_done
closed_early = on_close_done 0 [] (on_dying_closed none (on_detached (on_close started)))

closed_early-Runs : Runs started closed_early
unfolding on_close on_detached on_dying_closed on_close_done
closed_early-Runs =
    Runs.later
      (Runs.later (Runs.later (Runs.later Runs.here Turn.close) (Turn.detached refl))
        (Turn.dying_closed none refl))
      (Turn.close_done 0 [] refl)

closed_early_over : (closed_early.stage ≡ ended) × (closed_early.live ≡ [])
unfolding on_close on_detached on_dying_closed on_close_done
closed_early_over = (refl, refl)

Runs-owned_example :
    All (IsKnown closed_early) closed_early.live
    × (owned_count closed_early ≤ 1)
    × ((is_ended closed_early.stage ≡ false)
        ⊎ (closed_early.stopped ≡ true) × (closed_early.current ≡ none))
Runs-owned_example = Runs-owned closed_early closed_early-Runs

Runs-forgets_example :
    (s : Background) × Runs started s
    × (s.stage ≡ ended)
    × (owned_count s ≡ 0)
    × (length s.live ≡ 3)
Runs-forgets_example = Runs-forgets 3
