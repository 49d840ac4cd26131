-- ===== src/Orders/Write.antt =====
-- orders/orders.controller.ts: what the closure `write` lets through.
use course_project.Base.{
  map, ℕ, ltb, ◌≤◌, ◌≡◌, refl, ◌==◌, Bool, true, false, List, [], ◌∷◌, ◌++◌, any, arith, All,
  Bool-cases, inl, inr,
}
use course_project.Base.Int.{ℤ, pos, negsuc}
use course_project.Db.Rows.{OrderStatusRow}
use course_project.Orders.Events.{OrderStatusEvent, is_above, to_event, write_all}
use mathlib.Core.List.{Memᴰ}

abbrev pub has_event : ℕ → List OrderStatusEvent → Bool
has_event id = any λ e. e.id == id

-- Every id is greater than the one before it, the first one greater than `lo`.
abbrev pub IsIncreasing : ℤ → List OrderStatusEvent → Type 0
IsIncreasing lo [] = Unit
IsIncreasing lo (e ∷ es) = (is_above lo e.id ≡ true) × IsIncreasing (pos e.id) es

pub write_all-IsIncreasing :
    (seen : ℤ) (es : List OrderStatusEvent) → IsIncreasing seen (write_all seen es)
unfolding write_all
write_all-IsIncreasing seen [] = tt
write_all-IsIncreasing seen (e ∷ es) =
    written (is_above seen e.id) refl (write_all-IsIncreasing (pos e.id) es)
      (write_all-IsIncreasing seen es)
  where
    written :
        (b : Bool)
        → is_above seen e.id ≡ b
        → IsIncreasing (pos e.id) (write_all (pos e.id) es)
        → IsIncreasing seen (write_all seen es)
        → IsIncreasing seen
            (elim b [ true ↦ e ∷ write_all (pos e.id) es | false ↦ write_all seen es ])
    written true new with_e without = (new, with_e)
    written false old with_e without = without

-- What is written holds nothing up to `seen`.
pub write_all-low :
    (seen : ℤ) (id : ℕ) (es : List OrderStatusEvent)
    → is_above seen id ≡ false
    → has_event id (write_all seen es) ≡ false
unfolding write_all
write_all-low seen id [] low = refl
write_all-low (negsuc n) id (e ∷ es) low = cc
write_all-low (pos n) id (e ∷ es) low = elim (Bool-cases (is_above (pos n) e.id)) [
  | inl new ↦ ground (arith, low, new, write_all-low (pos e.id) id es (ground (arith, low, new)))
  | inr old ↦ ground (arith, old, write_all-low (pos n) id es low)
]

abbrev pub IsAscending : List OrderStatusEvent → Type 0
IsAscending [] = Unit
IsAscending (e ∷ es) = All (λ (f : OrderStatusEvent). e.id ≤ f.id) es × IsAscending es

has_event-le :
    (m id : ℕ) (es : List OrderStatusEvent)
    → All (λ (f : OrderStatusEvent). m ≤ f.id) es
    → has_event id es ≡ true
    → m ≤ id
has_event-le m id [] h there = cc
has_event-le m id (e ∷ es) (h, hs) there = ground (arith, h, there, has_event-le m id es hs)

above-apart :
    (seen : ℤ) (a b : ℕ) → is_above seen a ≡ false → is_above seen b ≡ true → (a == b) ≡ false
above-apart (pos n) a b low high = ground arith
above-apart (negsuc n) a b low high = cc

-- Of rows in ascending order, one with the id `id` is written, if that is above `seen`.
pub write_all-sends :
    (seen : ℤ) (id : ℕ) (rows : List OrderStatusRow) (more : List OrderStatusEvent)
    → IsAscending (map to_event rows)
    → is_above seen id ≡ true
    → has_event id (map to_event rows) ≡ true
    → (row : OrderStatusRow) × Memᴰ row rows
      × (row.event_id ≡ id)
      × Memᴰ (to_event row) (write_all seen (map to_event rows ++ more))
unfolding write_all
write_all-sends seen id [] more up above there = cc
write_all-sends seen id (r ∷ rows) more (le, up) above there =
    elim (Bool-cases (is_above seen r.event_id)) [
      | inl new ↦ elim (Bool-cases (r.event_id == id)) [
        | inl here ↦ (r, Memᴰ.head refl, ground (arith, here), rw (new, write_all) (Memᴰ.head refl))
        | inr other ↦
            let behind : has_event id (map to_event rows) ≡ true = ground (arith, there, other) in
            let (row, m, e, sent) =
              write_all-sends (pos r.event_id) id rows more up
                (ground (arith, other, has_event-le r.event_id id (map to_event rows) le behind))
                behind in
            (row, Memᴰ.tail m, e, rw (new, write_all) (Memᴰ.tail sent))
      ]
      | inr old ↦
          let (row, m, e, sent) =
            write_all-sends seen id rows more up above
              (ground (arith, there, above-apart seen r.event_id id old above)) in
          (row, Memᴰ.tail m, e, rw (old, write_all) sent)
    ]

below-low :
    (seen : ℤ) (a b : ℕ) → is_above seen a ≡ false → ltb b a ≡ true → is_above seen b ≡ false
below-low (pos n) a b low less = ground (arith, low, less)
below-low (negsuc n) a b low less = cc

-- An event hides every smaller id that comes behind it.
pub write_all-hides :
    (seen : ℤ) (id : ℕ) (es more : List OrderStatusEvent)
    → any (λ (e : OrderStatusEvent). ltb id e.id) es ≡ true
    → has_event id es ≡ false
    → has_event id (write_all seen (es ++ more)) ≡ false
unfolding write_all
write_all-hides seen id [] more greater absent = cc
write_all-hides seen id (e ∷ es) more greater absent = elim (Bool-cases (is_above seen e.id)) [
  | inl new ↦ elim (Bool-cases (ltb id e.id)) [
    | inl hit ↦
        ground (arith, new, absent, write_all-low (pos e.id) id (es ++ more) (ground (arith, hit)))
    | inr miss ↦
        ground (
          arith,
          new,
          absent,
          write_all-hides (pos e.id) id es more (ground (arith, greater, miss)),
        )
  ]
  | inr old ↦ elim (Bool-cases (ltb id e.id)) [
    | inl hit ↦
        ground (arith, old, write_all-low seen id (es ++ more) (below-low seen e.id id old hit))
    | inr miss ↦
        ground (arith, old, absent, write_all-hides seen id es more (ground (arith, greater, miss)))
  ]
]
