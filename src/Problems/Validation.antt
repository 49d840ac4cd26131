-- ===== src/Problems/Validation.antt =====
-- common/validation/validation.ts: the errors of a nested body, as one list.
use course_project.Base.{Option, none, some, List, [], ◌∷◌, ◌++◌, if◌then◌else◌}
use course_project.Base.Text.{Text, codes, truthy}

-- `error.constraints` by its values; a missing list of children is an empty one.
mutual
  pub data ValidationError : Type 0 where
    invalid : Text → Option (List Text) → Errors → ValidationError

  pub data Errors : Type 0 where
    no_more : Errors
    more : ValidationError → Errors → Errors

pub record FieldRules : Type 0 where
  pub field : Text
  pub rules : List Text

-- `parent ? `${parent}.${property}` : property`
abbrev pub field_under : Text → Text → Text
field_under parent property = if truthy parent then parent ++ codes "." ++ property else property

abbrev pub own_rules : Text → Option (List Text) → List FieldRules
own_rules path none = []
own_rules path (some rules) = record { field = path; rules = rules } ∷ []

unfoldable mutual
  pub flatten_error : ValidationError → Text → List FieldRules
  flatten_error (invalid property constraints children) parent =
      own_rules (field_under parent property) constraints
      ++ flatten children (field_under parent property)

  pub flatten : Errors → Text → List FieldRules
  flatten no_more parent = []
  flatten (more error errors) parent = flatten_error error parent ++ flatten errors parent
