-- ===== src/Broker/Topology.antt =====
-- broker/topology.ts: `deathReason`, why the broker has dead-lettered a message.
use course_project.Base.{Option, none, some, []}
use course_project.Base.Text.{Text, codes}
use course_project.Js.{Json, arr, cons, Fields, get_field, fields_of, text_of}

-- `headers`, when it is an object
abbrev pub headers_of : Option Json → Option Fields
headers_of none = none
headers_of (some headers) = fields_of headers

-- `death[0]`, when `x-death` is an array that has one
abbrev pub first_death : Option Json → Option Fields
first_death (some (arr (cons death deaths))) = fields_of death
first_death _ = none

abbrev pub reason_of : Option Fields → Text
reason_of none = []
reason_of (some death) = elim (text_of (get_field (codes "reason") death)) [
  | some reason ↦ reason
  | none ↦ []
]

abbrev pub reason_in : Fields → Text
reason_in headers = elim (text_of (get_field (codes "x-first-death-reason") headers)) [
  | some reason ↦ reason
  | none ↦ reason_of (first_death (get_field (codes "x-death") headers))
]

unfoldable pub death_reason : Option Json → Text
death_reason headers = elim (headers_of headers) [ none ↦ [] | some fields ↦ reason_in fields ]
