-- ===== src/Tests/ProblemsTests.antt =====
-- A body that is not valid, and what it is answered with.
use course_project.Base.{◌≡◌, refl, true, none, some, [], ◌∷◌, ◌++◌, map, All}
use course_project.Base.Int.{pos}
use course_project.Base.Text.{Text, codes, decimal, text_eq, truthy}
use course_project.Js.{Json, int, num, str, arr, obj, field, end}
use course_project.Problems.Answers.{catch-validation_factory}
use course_project.Problems.Filter.{
  rules_json, validation_factory, caught_http, caught_other, write_problem, catch,
}
use course_project.Problems.Located.{Located, located, dotted, flatten-located}
use course_project.Problems.Validation.{Errors, invalid, no_more, more, flatten}
use course_project.Problems.{http, other, problem_base}

-- `items.0.quantity` is below its minimum, and `buyer_id` is missing.
abbrev errors : Errors
errors =
    more
      (invalid (codes "items") none (
        more
          (invalid (codes "0") none
            (more (invalid (codes "quantity") (some (codes "min" ∷ [])) no_more) no_more))
          no_more))
      (more (invalid (codes "buyer_id") (some (codes "required" ∷ codes "int" ∷ [])) no_more)
        no_more)

abbrev show : Json → Text
show (str t) = t
show (num (int (pos n))) = decimal n
show _ = codes "[object Object]"

flat_fields :
    map (λ r. r.field) (flatten errors []) ≡ codes "items.0.quantity" ∷ codes "buyer_id" ∷ []
unfolding flatten
flat_fields = refl

errors-IsNamed :
    All (λ (node : Located). All (λ name. truthy name ≡ true) node.path) (located errors)
unfolding located
errors-IsNamed = ((refl, (refl, (refl, tt))), ((refl, tt), tt))

-- An error that is not an exception of the framework reveals nothing.
hidden :
    (catch show
      (codes "/orders")
      (other (obj (field (codes "message") (str (codes "secret")) end)))).detail
    ≡ str (codes "Something went wrong")
unfolding catch caught_other write_problem text_eq
hidden = refl

missing :
    (catch show (codes "/orders/9") (
      http 404 (
        obj (
          field
            (codes "code")
            (str (codes "not-found"))
            (field (codes "detail") (str (codes "order 9 not found")) end))))).type_uri
    ≡ codes "https://api.marketplace.example/problems/not-found"
unfolding catch caught_http write_problem text_eq
missing = refl

flatten-located_example :
    flatten errors []
    ≡ map
        (λ (node : Located). record { field = dotted node.path; rules = node.rules })
        (located errors)
flatten-located_example = flatten-located errors errors-IsNamed

catch-validation_factory_example :
    catch show (codes "/orders") (validation_factory errors) ≡ record {
      type_uri = problem_base ++ codes "/validation-failed";
      title = codes "Bad Request";
      status = int (pos 400);
      detail = str (codes "Request body failed validation");
      instance_url = codes "/orders";
      errors = some (
          arr (
            rules_json (
              map
                (λ (node : Located). record { field = dotted node.path; rules = node.rules })
                (located errors))));
    }
catch-validation_factory_example =
    catch-validation_factory show (codes "/orders") errors refl errors-IsNamed
