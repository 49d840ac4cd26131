-- ===== src/Problems/Answers.antt =====
-- common/problem: how a body that is not valid, and the failures of the service, are answered.
use course_project.Base.{◌≡◌, refl, some, ◌++◌, map, All}
use course_project.Base.Int.{pos}
use course_project.Base.Text.{Text, codes, text_eq}
use course_project.Js.{Json, int, str, arr}
use course_project.Problems.Filter.{
  rules_json, validation_factory, caught_http, write_problem, catch,
}
use course_project.Problems.Located.{Located, IsNamed, located, dotted, flatten-located}
use course_project.Problems.Validation.{Errors}
use course_project.Problems.{problem_base, title_of}

-- A body that fails validation is answered with a 400 of the type `validation-failed`, whose errors
-- are the nodes of the tree of errors that have constraints, each with its rules and the dotted names
-- of its path, if no property on a path is named by the empty text and the code stands for itself in
-- a template literal.
pub catch-validation_factory :
    (show : Json → Text) (url : Text) (errors : Errors)
    → show (str (codes "validation-failed")) ≡ codes "validation-failed"
    → All (λ (node : Located). IsNamed node.path) (located errors)
    → catch show url (validation_factory errors) ≡ record {
      type_uri = problem_base ++ codes "/validation-failed";
      title = codes "Bad Request";
      status = int (pos 400);
      detail = str (codes "Request body failed validation");
      instance_url = url;
      errors = some (
          arr (
            rules_json (
              map
                (λ (node : Located). record { field = dotted node.path; rules = node.rules })
                (located errors))));
    }
unfolding catch caught_http write_problem validation_factory title_of text_eq
catch-validation_factory show url errors shown named = rw (shown, flatten-located errors named) refl
