-- ===== src/Problems/Middleware.antt =====
-- configure-app.ts: `validatorErrorHandler`, which answers the errors of the OpenAPI validator.
use course_project.Base.{
  ◌≡◌, refl, Bool, true, false, Option, none, some, if◌then◌else◌, Bool-cases, inl, inr,
}
use course_project.Base.Int.{pos}
use course_project.Base.Text.{Text, codes, truthy, text_eq}
use course_project.Js.{Json, num, str, obj, Fields, end, field, Number, int}
use course_project.Problems.Filter.{when_truthy, write_problem, caught_other}
use course_project.Problems.{Problem, is_truthy, something_wrong}

pub record ValidatorError : Type 0 where
  pub status : Option Number
  pub message : Option Text
  pub errors : Option Json

-- `err.status || 500`
abbrev pub status_or_500 : Option Number → Number
status_or_500 none = int (pos 500)
status_or_500 (some n) = if is_truthy (num n) then n else int (pos 500)

-- `err.message || 'Something went wrong'`
abbrev pub message_or : Option Text → Json
message_or none = something_wrong
message_or (some t) = if truthy t then str t else something_wrong

-- `err.errors ? 'validation-failed' : status`
abbrev pub code_by : Option Json → Number → Json
code_by none status = num status
code_by (some _) status = str (codes "validation-failed")

module _ (show : Json → Text) where
  -- The answer, unless the headers are sent; then the error is passed on.
  unfoldable pub validator_error_handler : Bool → Text → ValidatorError → Option Problem
  unfolding write_problem
  validator_error_handler headers_sent url e =
      if headers_sent
      then none
      else some (
          write_problem show url (status_or_500 e.status) (message_or e.message)
            (code_by (when_truthy e.errors) (status_or_500 e.status)) none)

-- The error as the object that the filter would be given.
abbrev pub with_errors : Option Json → Fields
with_errors none = end
with_errors (some v) = field (codes "errors") v end

abbrev pub error_json : Number → Text → Option Json → Json
error_json status message errors = obj (
    field (codes "status") (num status)
      (field (codes "message") (str message) (with_errors errors)))

module _ (show : Json → Text) where
  -- An error with a status other than 0 and a message gets the answer that `ProblemFilter` gives to it.
  pub validator_error_handler-caught :
      (url : Text) (status : Number) (message : Text) (errors : Option Json)
      → is_truthy (num status) ≡ true
      → truthy message ≡ true
      → validator_error_handler show false url
          (record { status = some status; message = some message; errors = errors })
        ≡ some (caught_other show url (error_json status message errors))
  unfolding validator_error_handler caught_other text_eq
  validator_error_handler-caught url status message none known said = rw (known, said) refl
  validator_error_handler-caught url status message (some v) known said =
      elim (Bool-cases (is_truthy v)) [
        | inl given ↦ rw (known, said, given) refl
        | inr nothing ↦ rw (known, said, nothing) refl
      ]
