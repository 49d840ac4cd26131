-- ===== src/Pagination.antt =====
-- common/pagination/pagination.ts: a page of a list, and the opaque cursor for the next page.
pub mod Pages
pub mod Walk
pub mod Tables
use course_project.Base.{
  ℕ, ltb, Bool, true, false, Option, none, some, List, [], ◌∷◌, any, filter, take, last, Result, ok,
  err, ◌>>=◌, ◌&&◌, if◌then◌else◌,
}
use course_project.Base.Int.{ℤ, pos, negsuc}
use course_project.Base.Text.{Text, codes, truthy}
use course_project.Js.{Json, num, obj, end, field, int, get_field, fields_of, Host}

-- `BadRequestException` with the code `bad-cursor`
pub data BadCursor : Type 0 where
  bad_cursor : BadCursor

-- `buffer.toString('base64url')` and `Buffer.from(raw, 'base64url')`
pub record Base64 (host : Host) : Type 0 where
  pub to_base64 : host.Body → Text
  pub of_base64 : Text → host.Body

pub record Page {ℓ} (A : Type ℓ) : Type ℓ where
  pub items : List A
  pub next_cursor : Option Text

-- `JSON.stringify({ id })`
abbrev pub cursor_json : ℕ → Json
cursor_json id = obj (field (codes "id") (num (int (pos id))) end)

-- `typeof id === 'number' && Number.isInteger(id)`, with the value
abbrev pub integer_of : Option Json → Result BadCursor ℤ
integer_of (some (num (int z))) = ok z
integer_of _ = err bad_cursor

-- `parsed.id`; `null.id` throws
abbrev pub id_of_cursor : Option Json → Result BadCursor ℤ
id_of_cursor none = err bad_cursor
id_of_cursor (some value) = elim (fields_of value) [
  | none ↦ err bad_cursor
  | some fs ↦ integer_of (get_field (codes "id") fs)
]

-- `id > startAfter`
abbrev pub is_after : ℤ → ℕ → Bool
is_after (pos n) id = ltb n id
is_after (negsuc n) id = true

module _ (host : Host) (base64 : Base64 host) where
  unfoldable pub encode_cursor : ℕ → Text
  encode_cursor id = base64.to_base64 (host.stringify (cursor_json id))

  unfoldable pub decode_cursor : Text → Result BadCursor ℤ
  decode_cursor raw = id_of_cursor (host.parse (base64.of_base64 raw))

  -- `cursorRaw ? decodeCursor(cursorRaw) : 0`
  abbrev pub start_after : Option Text → Result BadCursor ℤ
  start_after none = ok (pos 0)
  start_after (some raw) = if truthy raw then decode_cursor raw else ok (pos 0)

  module _ {ℓ} {A : Type ℓ} (id : A → ℕ) where
    -- The page behind `startAfter`, its last item, if there is one, given.
    abbrev pub cut_page : List A → List A → Option A → Page A
    cut_page items slice none = record { items = slice; next_cursor = none }
    cut_page items slice (some l) = record {
      items = slice;
      next_cursor =
          if any (λ item. ltb (id l) (id item)) items then some (encode_cursor (id l)) else none;
    }

    abbrev pub page_after : List A → ℕ → ℤ → Page A
    page_after items limit start =
        let slice = take limit (filter (λ item. is_after start (id item)) items) in
        cut_page items slice (last slice)

    unfoldable pub paginate : List A → ℕ → Option Text → Result BadCursor (Page A)
    paginate items limit cursor = start_after cursor >>= λ start. ok (page_after items limit start)
