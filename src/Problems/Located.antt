-- ===== src/Problems/Located.antt =====
-- common/validation/validation.ts: the flat list has the nodes of the tree, by their paths.
use course_project.Base.{
  ◌≡◌, refl, sym, ap, ◌∙◌, true, Option, none, some, List, [], ◌∷◌, ◌++◌, map, All, arith,
}
use mathlib.Core.List.{append-nil, append_assoc}
use course_project.Base.Text.{Text, codes, truthy}
use course_project.Problems.Validation.{
  ValidationError, invalid, Errors, no_more, more, FieldRules, field_under, own_rules,
  flatten_error, flatten,
}

-- A node of the tree that has constraints: the names on the way to it, and its rules.
pub record Located : Type 0 where
  pub path : List Text
  pub rules : List Text

-- The node, seen from the parent of the one that has it.
abbrev pub deeper : Text → Located → Located
deeper property node = record node { path = property ∷ node.path }

abbrev own_located : Text → Option (List Text) → List Located
own_located property none = []
own_located property (some rules) = record { path = property ∷ []; rules = rules } ∷ []

-- The nodes that have constraints, a node before its children.
unfoldable mutual
  pub located_error : ValidationError → List Located
  located_error (invalid property constraints children) =
      own_located property constraints ++ map (deeper property) (located children)

  pub located : Errors → List Located
  located no_more = []
  located (more error errors) = located_error error ++ located errors

-- `names.join('.')`
abbrev dotted_tail : List Text → Text
dotted_tail [] = []
dotted_tail (name ∷ names) = codes "." ++ name ++ dotted_tail names

abbrev pub dotted : List Text → Text
dotted [] = []
dotted (name ∷ names) = name ++ dotted_tail names

-- The field that `flatten` gives a path under a parent.
abbrev walk_names : Text → List Text → Text
walk_names parent [] = parent
walk_names parent (name ∷ names) = walk_names (field_under parent name) names

abbrev placed : Text → Located → FieldRules
placed parent node = record { field = walk_names parent node.path; rules = node.rules }

module _ {ℓ κ} {A : Type ℓ} {B : Type κ} where
  map-append : (f : A → B) (xs ys : List A) → map f (xs ++ ys) ≡ map f xs ++ map f ys
  map-append f [] ys = refl
  map-append f (x ∷ xs) ys = ap (λ zs. f x ∷ zs) (map-append f xs ys)

module _ {ℓ κ μ} {A : Type ℓ} {B : Type κ} {C : Type μ} where
  map-map : (g : B → C) (f : A → B) (xs : List A) → map g (map f xs) ≡ map (λ x. g (f x)) xs
  map-map g f [] = refl
  map-map g f (x ∷ xs) = ap (λ zs. g (f x) ∷ zs) (map-map g f xs)

own_rules-placed :
    (parent property : Text) (constraints : Option (List Text))
    → own_rules (field_under parent property) constraints
      ≡ map (placed parent) (own_located property constraints)
own_rules-placed parent property none = refl
own_rules-placed parent property (some rules) = refl

mutual
  unfolding flatten_error flatten located_error located

  flatten_error-placed :
      (error : ValidationError) (parent : Text)
      → flatten_error error parent ≡ map (placed parent) (located_error error)
  flatten_error-placed (invalid property constraints children) parent =
      rw
        (
          own_rules-placed parent property constraints,
          flatten-placed children (field_under parent property),
          map-append (placed parent) (own_located property constraints)
              (map (deeper property) (located children)),
          map-map (placed parent) (deeper property) (located children),
        )
        refl

  flatten-placed :
      (errors : Errors) (parent : Text)
      → flatten errors parent ≡ map (placed parent) (located errors)
  flatten-placed no_more parent = refl
  flatten-placed (more error errors) parent =
      rw
        (
          flatten_error-placed error parent,
          flatten-placed errors parent,
          map-append (placed parent) (located_error error) (located errors),
        )
        refl

-- Names are not empty.
abbrev pub IsNamed : List Text → Type 0
IsNamed = All λ name. truthy name ≡ true

truthy-append : (s t : Text) → truthy s ≡ true → truthy (s ++ t) ≡ true
truthy-append [] t h = cc
truthy-append (c ∷ s) t h = refl

walk_names-dotted_tail :
    (parent : Text) (names : List Text)
    → truthy parent ≡ true
    → walk_names parent names ≡ parent ++ dotted_tail names
walk_names-dotted_tail parent [] h = sym (append-nil parent)
walk_names-dotted_tail parent (name ∷ names) h =
    ap (λ path. walk_names path names) (ground (arith, h))
    ∙ walk_names-dotted_tail (parent ++ codes "." ++ name) names
        (truthy-append (parent ++ codes ".") name (truthy-append parent (codes ".") h))
    ∙ ap (λ path. path ++ dotted_tail names) (append_assoc parent (codes ".") name)
    ∙ append_assoc parent (codes "." ++ name) (dotted_tail names)

walk_names-dotted : (names : List Text) → IsNamed names → walk_names [] names ≡ dotted names
walk_names-dotted [] named = refl
walk_names-dotted (name ∷ names) named = walk_names-dotted_tail name names named.0

placed-dotted :
    (nodes : List Located)
    → All (λ (node : Located). IsNamed node.path) nodes
    → map (placed []) nodes
      ≡ map (λ (node : Located). record { field = dotted node.path; rules = node.rules }) nodes
placed-dotted [] named = refl
placed-dotted (node ∷ nodes) named =
    rw (walk_names-dotted node.path named.0, placed-dotted nodes named.1) refl

-- If no property on a path is named by the empty text, `flatten` gives one entry for each node with
-- constraints, a node before its children and siblings in their order, with the node's rules and the
-- names of its path joined by dots.
pub flatten-located :
    (errors : Errors)
    → All (λ (node : Located). IsNamed node.path) (located errors)
    → flatten errors []
      ≡ map
          (λ (node : Located). record { field = dotted node.path; rules = node.rules })
          (located errors)
flatten-located errors named = flatten-placed errors [] ∙ placed-dotted (located errors) named
