-- ===== src/Tests/PaginationTests.antt =====
-- Pages of a short catalog.
use course_project.Base.{ℕ, ◌≡◌, refl, none, some, List, [], ◌∷◌, ok, arith, Option}
use course_project.Base.Int.{pos}
use course_project.Base.Text.{Text}
use course_project.Js.{Json, obj, field, num, int, end}
use course_project.Pagination.{Base64, cursor_json, paginate, encode_cursor}
use course_project.Pagination.Walk.{IsCodec, walk, walk_complete}
use course_project.Tests.Fixtures.{host}

-- An encoding for the cursors alone: the text holds the id.
abbrev pub written : Option Json → Text
written (some (obj (field name (num (int (pos n))) end))) = n ∷ []
written _ = []

abbrev pub read : Text → Option Json
read (n ∷ []) = some (cursor_json n)
read _ = none

abbrev pub base64 : Base64 host
base64 = record { to_base64 = written; of_base64 = read }

pub codec : IsCodec host base64
unfolding encode_cursor
codec = record { not_empty = λ n. refl; round_trip = λ n. refl }

abbrev catalog : List ℕ
catalog = 1 ∷ 2 ∷ 5 ∷ []

first_page :
    paginate host base64 (λ n. n) catalog 2 none
    ≡ ok (record { items = 1 ∷ 2 ∷ []; next_cursor = some (2 ∷ []) })
unfolding paginate encode_cursor
first_page = refl

walk_complete_example : walk (paginate host base64 (λ n. n) catalog 2) 4 none ≡ some catalog
walk_complete_example =
    walk_complete host base64 (λ n. n) codec catalog
      (((omega arith), (omega arith, tt)), ((omega arith, tt), (tt, tt))) 1
      (omega arith, (omega arith, (omega arith, tt)))
