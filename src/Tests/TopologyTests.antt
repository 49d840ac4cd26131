-- ===== src/Tests/TopologyTests.antt =====
-- Headers of dead letters.
use course_project.Base.{◌≡◌, refl, none, some, []}
use course_project.Base.Text.{codes, text_eq}
use course_project.Broker.Topology.{death_reason}
use course_project.Js.{Json, str, arr, obj, nil, cons, end, field}

abbrev old_headers : Json
old_headers = obj (
    field (codes "x-death")
      (arr (cons (obj (field (codes "reason") (str (codes "rejected")) end)) nil)) end)

by_list : death_reason (some old_headers) ≡ codes "rejected"
unfolding death_reason text_eq
by_list = refl

by_name :
    death_reason (some (obj (field (codes "x-first-death-reason") (str (codes "expired")) end)))
    ≡ codes "expired"
unfolding death_reason text_eq
by_name = refl

without_headers : death_reason none ≡ []
unfolding death_reason
without_headers = refl
