-- ===== src/Js.antt =====
-- The values of the language that the program takes apart at its edges: numbers after coercion,
-- what `JSON.parse` returns, and the built-in functions that it calls without defining them.
use course_project.Base.{ℕ, leb, Bool, true, false, Option, none, some, if◌then◌else◌}
use course_project.Base.Int.{ℤ, pos}
use course_project.Base.Text.{Text, text_eq}

-- A `number`: an integer, a number with a fractional part (by its floor), or none of these.
pub data Number : Type 0 where
  nan infinite : Number
  int fractional : ℤ → Number

-- `Number.isInteger(x) && x >= least`, with the value
abbrev pub integer_from : ℕ → Number → Option ℕ
integer_from least (int (pos n)) = if leb least n then some n else none
integer_from least _ = none

mutual
  pub data Json : Type 0 where
    null : Json
    bool : Bool → Json
    num : Number → Json
    str : Text → Json
    arr : Items → Json
    obj : Fields → Json

  pub data Items : Type 0 where
    nil : Items
    cons : Json → Items → Items

  pub data Fields : Type 0 where
    end : Fields
    field : Text → Json → Fields → Fields

-- `record.name`; `none` is `undefined`. An object that was parsed has each name once.
abbrev pub get_field : Text → Fields → Option Json
get_field name end = none
get_field name (field n v fs) = if text_eq n name then some v else get_field name fs

-- The named fields of a truthy value of type `object`. An array is one, and has none of the names
-- that the program reads.
abbrev pub fields_of : Json → Option Fields
fields_of (obj fs) = some fs
fields_of (arr xs) = some end
fields_of _ = none

abbrev pub text_of : Option Json → Option Text
text_of (some (str t)) = some t
text_of _ = none

-- Functions that the language or its runtime provides and the source only calls.
pub record Host : Type 1 where
  -- a `Buffer` with the bytes of a message
  pub Body : Type 0
  -- `JSON.parse(body.toString('utf8'))`, `none` where it throws
  pub parse : Body → Option Json
  -- `Buffer.from(JSON.stringify(value))`
  pub stringify : Json → Body
  -- `Buffer.from(text)`
  pub body_of_text : Text → Body
  -- `Number(text)`, and `Number(array)`, which goes by the array's text
  pub number_of_text : Text → Number
  pub number_of_items : Items → Number
  -- `new Date(t).toISOString()`
  pub to_iso : ℕ → Text
  -- `sha256` in hexadecimal of `JSON.stringify(value)`
  pub sha256 : Json → Text

module _ (host : Host) where
  -- `Number(value)`; a missing field is `undefined`
  unfoldable pub to_number : Option Json → Number
  to_number none = nan
  to_number (some null) = int (pos 0)
  to_number (some (bool true)) = int (pos 1)
  to_number (some (bool false)) = int (pos 0)
  to_number (some (num n)) = n
  to_number (some (str t)) = host.number_of_text t
  to_number (some (arr xs)) = host.number_of_items xs
  to_number (some (obj fs)) = nan
