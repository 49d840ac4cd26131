-- ===== src/Pagination/Walk.antt =====
-- common/pagination/pagination.ts: a client that follows the cursors reads the whole list.
use course_project.Base.Sort.{IsSorted}
use course_project.Base.{
  ℕ, zero, suc, ◌<◌, ◌≡◌, refl, ap, ◌∙◌, ltb, true, Option, none, some, List, [], ◌∷◌, ◌++◌, any,
  take, last, length, length-append, length-filter-le, Result, ok, err, arith, All, Option-cases,
  Bool-cases, inl, inr,
}
use mathlib.Core.List.{append-nil}
use course_project.Base.Int.{pos}
use course_project.Base.Text.{Text, codes, text_eq_refl, truthy}
use course_project.Js.{Host}
use course_project.Pagination.{
  BadCursor, Base64, Page, cursor_json, encode_cursor, decode_cursor, start_after, paginate,
}
use course_project.Pagination.Pages.{
  after, slice_after, last-none, any-after, after_whole, after-slice,
}

length-last {ℓ} : {A : Type ℓ} (xs : List A) (l : A) → last xs ≡ some l → 0 < length xs
length-last [] l h = cc
length-last (x ∷ xs) l h = omega arith

take-empty {ℓ} : {A : Type ℓ} (k : ℕ) (xs : List A) → take (suc k) xs ≡ [] → xs ≡ []
take-empty k [] h = refl
take-empty k (x ∷ xs) h = cc

abbrev append_to {ℓ} : {A : Type ℓ} → List A → Option (List A) → Option (List A)
append_to xs none = none
append_to xs (some ys) = some (xs ++ ys)

-- The items that a client has who asks for pages until there is no next cursor; `none` if a page is
-- refused or if `fuel` requests were not enough.
unfoldable pub walk {ℓ} :
    {A : Type ℓ} → (Option Text → Result BadCursor (Page A)) → ℕ → Option Text → Option (List A)
walk fetch zero cursor = none
walk fetch (suc fuel) cursor = elim (fetch cursor) [
  | err e ↦ none
  | ok page ↦ elim page.next_cursor [
    | none ↦ some page.items
    | some next ↦ append_to page.items (walk fetch fuel (some next))
  ]
]

module _ (host : Host) (base64 : Base64 host) where
  -- What the encodings promise of a cursor: it is not empty, and it is read back.
  pub record IsCodec : Type 0 where
    pub not_empty : (n : ℕ) → truthy (encode_cursor host base64 n) ≡ true
    pub round_trip :
        (n : ℕ)
        → host.parse (base64.of_base64 (base64.to_base64 (host.stringify (cursor_json n))))
          ≡ some (cursor_json n)

  start_after-encode_cursor :
      IsCodec → (n : ℕ) → start_after host base64 (some (encode_cursor host base64 n)) ≡ ok (pos n)
  unfolding encode_cursor decode_cursor
  start_after-encode_cursor codec n =
      ground (arith, codec.not_empty n, codec.round_trip n, text_eq_refl (codes "id"))

  module _ {ℓ} {A : Type ℓ} (id : A → ℕ) (codec : IsCodec) (items : List A)
      (sorted : IsSorted id items) where
    walk-after :
        (fuel k n : ℕ) (cursor : Option Text)
        → start_after host base64 cursor ≡ ok (pos n)
        → length (after id n items) < fuel
        → walk (paginate host base64 id items (suc k)) fuel cursor ≡ some (after id n items)
    unfolding walk paginate
    walk-after zero k n cursor start enough = ground arith
    walk-after (suc fuel) k n cursor start enough =
        elim (Option-cases (last (slice_after id n (suc k) items))) [
          | inl nothing ↦ ground (
            arith,
            start,
            nothing,
            take-empty k _ (last-none id (slice_after id n (suc k) items) nothing),
          )
          | inr (l, final) ↦ elim (Bool-cases (any (λ item. ltb (id l) (id item)) items)) [
            | inl more ↦
                let rest : after id n items
                    ≡ slice_after id n (suc k) items ++ after id (id l) items =
                  after-slice id n (suc k) items l sorted final in
                let shorter : length (after id (id l) items) < fuel = omega (
                  arith,
                  enough,
                  length-last (slice_after id n (suc k) items) l final,
                  ap length rest,
                  length-append (slice_after id n (suc k) items) (after id (id l) items),
                ) in
                ground (
                  arith,
                  start,
                  final,
                  more,
                  rest,
                  walk-after fuel k (id l) (some (encode_cursor host base64 (id l)))
                      (start_after-encode_cursor codec (id l)) shorter,
                )
            | inr done ↦ ground (
              arith,
              start,
              final,
              done,
              any-after id (id l) items done,
              after-slice id n (suc k) items l sorted final,
              append-nil (slice_after id n (suc k) items),
            )
          ]
        ]

    -- If ids are positive and strictly increasing, as `ORDER BY id` on a primary key gives them, and
    -- cursors survive their encoding, then a client that starts without a cursor and follows the
    -- cursors reads every item once and in order, with any page size of at least one, in at most one
    -- request more than there are items.
    pub walk_complete :
        (k : ℕ)
        → All (λ x. 0 < id x) items
        → walk (paginate host base64 id items (suc k)) (suc (length items)) none ≡ some items
    walk_complete k positive =
        walk-after (suc (length items)) k 0 none refl
          (omega (arith, length-filter-le (λ x. ltb 0 (id x)) items))
        ∙ ap some (after_whole id 0 items positive)
