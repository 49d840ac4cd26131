-- ===== src/Problems.antt =====
-- common/problem: the body that a request which fails is answered with.
pub mod Validation
pub mod Located
pub mod Filter
pub mod Middleware
pub mod Answers
use course_project.Base.{
  ℕ, ◌≡◌, Bool, true, false, Option, none, some, List, [], ◌∷◌, ◌++◌, if◌then◌else◌, ◌==◌, not,
}
use course_project.Base.Int.{pos}
use course_project.Base.Text.{Text, codes, truthy}
use course_project.Js.{
  Number, int, nan, Json, null, bool, num, str, Fields, end, get_field, fields_of,
}

-- The body of `application/problem+json`; its status is also that of the response.
pub record Problem : Type 0 where
  pub type_uri : Text
  pub title : Text
  pub status : Number
  pub detail : Json
  pub instance_url : Text
  pub errors : Option Json

-- What a handler throws: an `HttpException`, by its status and its response, or another value.
pub data Thrown : Type 0 where
  http : ℕ → Json → Thrown
  other : Json → Thrown

abbrev pub problem_base : Text
problem_base = codes "https://api.marketplace.example/problems"

-- `TITLES[status] ?? 'Error'`
unfoldable pub title_of : Number → Text
title_of (int (pos n)) =
    if n == 400
    then codes "Bad Request"
    else if n == 404
    then codes "Not Found"
    else if n == 409
    then codes "Conflict"
    else if n == 422
    then codes "Unprocessable Entity"
    else if n == 500
    then codes "Internal Server Error"
    else if n == 503
    then codes "Service Unavailable"
    else codes "Error"
title_of _ = codes "Error"

-- `value ?? fallback`
abbrev pub or_else : Option Json → Json → Json
or_else none fallback = fallback
or_else (some null) fallback = fallback
or_else (some value) fallback = value

-- Whether a value counts as true.
abbrev pub is_truthy : Json → Bool
is_truthy null = false
is_truthy (bool b) = b
is_truthy (num (int (pos n))) = not (n == 0)
is_truthy (num nan) = false
is_truthy (str t) = truthy t
is_truthy _ = true

abbrev pub something_wrong : Json
something_wrong = str (codes "Something went wrong")
