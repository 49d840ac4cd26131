-- ===== src/Tests/PublisherTests.antt =====
-- The publisher's life, with a send that is refused, and a destroy while a connection is being opened.
use course_project.Base.{◌+◌, ◌≤◌, ◌≡◌, ◌⊎◌, refl, true, none, some, [], ◌∷◌, length, arith}
use course_project.Broker.Publisher.Reached.{Reach-one}
use course_project.Broker.Publisher.Single.{held}
use course_project.Broker.Publisher.Strays.{Reach-strays}
use course_project.Broker.Publisher.{
  Service, send, on_open, on_refused, on_closed, on_module_destroy, initial, confirm, start, opened,
  refused, closed, tick, Reach, here, later,
}

-- The service is up, and the relay's timer has sent an event that the broker refuses.
abbrev up : Service
unfolding on_open
up = on_open 0 initial

abbrev sent : Service
unfolding send on_open
sent = send (record up { ticking = true; relays = 1; queued = 1 })

abbrev again : Service
unfolding send on_open on_refused on_closed
again = send (record (on_closed 0 (on_refused 0 sent)) { queued = 1 })

again-Reach : Reach initial again
unfolding send on_open on_refused on_closed
again-Reach =
    later
      (later
        (later
          (later
            (later (later (later (later here (opened 0 refl)) (tick refl refl)) (confirm refl))
              (start refl (omega arith)))
            (refused 0 refl))
          (closed 0 refl))
        (confirm refl))
      (start refl (omega arith))

-- The broken connection is closed before the next one is opened.
again_opens : (again.opens ≡ 1 ∷ []) × (again.live ≡ [])
unfolding send on_open on_refused on_closed
again_opens = (refl, refl)

Reach-one_example :
    ((again.disposed ≡ true)
      ⊎ (length again.opens + length again.live ≤ 1) × (again.opens ≡ held again.opening))
    × (again.relays ≤ 1)
Reach-one_example = Reach-one again again-Reach

-- A connection that is being opened when the service is destroyed is kept by it and stays open.
abbrev destroyed_early : Service
unfolding on_open on_module_destroy
destroyed_early = on_open 0 (on_module_destroy initial)

destroyed_early_keeps :
    (destroyed_early.disposed ≡ true)
    × (destroyed_early.publisher ≡ some 0)
    × (destroyed_early.live ≡ 0 ∷ [])
unfolding on_open on_module_destroy
destroyed_early_keeps = (refl, refl, refl)

Reach-strays_example :
    (t : Service) × Reach initial t
    × (t.disposed ≡ true)
    × (t.publisher ≡ none)
    × (length t.strays ≡ 3)
Reach-strays_example = Reach-strays 3
