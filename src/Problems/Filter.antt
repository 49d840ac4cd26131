-- ===== src/Problems/Filter.antt =====
-- common/problem: `ProblemFilter`, `writeProblem`, and the exception for a body that is not valid.
use course_project.Base.{ℕ, Option, none, some, List, [], ◌∷◌, ◌++◌, if◌then◌else◌}
use course_project.Base.Int.{pos}
use course_project.Base.Text.{Text, codes}
use course_project.Js.{
  Number, int, Json, num, str, arr, obj, Items, nil, cons, Fields, end, field, get_field, fields_of,
}
use course_project.Problems.Validation.{Errors, FieldRules, flatten}
use course_project.Problems.{
  Problem, Thrown, http, other, problem_base, title_of, or_else, is_truthy, something_wrong,
}

abbrev list_of_texts : List Text → Items
list_of_texts [] = nil
list_of_texts (t ∷ ts) = cons (str t) (list_of_texts ts)

-- The list of `{ field, rules }`, as a value
abbrev pub rules_json : List FieldRules → Items
rules_json [] = nil
rules_json (r ∷ rs) =
    cons
      (obj (
        field (codes "field") (str r.field)
          (field (codes "rules") (arr (list_of_texts r.rules)) end)))
      (rules_json rs)

-- `validationFactory`: the response of a `BadRequestException`
unfoldable pub validation_factory : Errors → Thrown
validation_factory errors = http 400 (
    obj (
      field (codes "code") (str (codes "validation-failed")) (
        field (codes "detail") (str (codes "Request body failed validation"))
          (field (codes "errors") (arr (rules_json (flatten errors []))) end))))

-- The object that the response of an exception is, or `{}`
abbrev pub extra_of : Json → Fields
extra_of body = elim (fields_of body) [ none ↦ end | some fs ↦ fs ]

-- `extra.detail ?? (typeof body === 'string' ? body : extra.message ?? …)`
abbrev pub http_detail : Json → Json
http_detail (str t) = str t
http_detail body =
    or_else (get_field (codes "detail") (extra_of body))
      (or_else (get_field (codes "message") (extra_of body)) something_wrong)

-- `value ? value : undefined`
abbrev pub when_truthy : Option Json → Option Json
when_truthy none = none
when_truthy (some v) = if is_truthy v then some v else none

-- `typeof exception.status === 'number'`
abbrev pub validator_status : Json → Option Number
validator_status exception = elim (get_field (codes "status") (extra_of exception)) [
  | some (num n) ↦ some n
  | _ ↦ none
]

-- `show` is the conversion of a value to a text in a template literal.
module _ (show : Json → Text) where
  -- `writeProblem`
  unfoldable pub write_problem : Text → Number → Json → Json → Option Json → Problem
  write_problem url status detail code errors = record {
    type_uri = problem_base ++ codes "/" ++ show code;
    title = title_of status;
    status = status;
    detail = detail;
    instance_url = url;
    errors = errors;
  }

  unfoldable pub caught_http : Text → ℕ → Json → Problem
  unfolding write_problem
  caught_http url status body =
      write_problem url (int (pos status)) (http_detail body)
        (or_else (get_field (codes "code") (extra_of body)) (num (int (pos status))))
        (when_truthy (get_field (codes "errors") (extra_of body)))

  unfoldable pub caught_other : Text → Json → Problem
  unfolding write_problem
  caught_other url exception = elim (validator_status exception) [
    | some status ↦
        write_problem url status
          (or_else (get_field (codes "message") (extra_of exception)) something_wrong)
          (elim (when_truthy (get_field (codes "errors") (extra_of exception))) [
            | some _ ↦ str (codes "validation-failed")
            | none ↦ num status
          ])
          none
    | none ↦ write_problem url (int (pos 500)) something_wrong (num (int (pos 500))) none
  ]

  -- `ProblemFilter.catch`
  unfoldable pub catch : Text → Thrown → Problem
  unfolding caught_http caught_other
  catch url (http status body) = caught_http url status body
  catch url (other exception) = caught_other url exception
