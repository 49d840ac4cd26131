-- ===== src/Orders/Since.antt =====
-- orders/order-events.service.ts: the answer of `since`, its order and what is in it.
use course_project.Base.{
  ap, subst, ◌++◌, ◌⊎◌, inl, inr, Bool-cases, if◌then◌else◌, ℕ, ◌≤◌, ◌≡◌, refl, ◌∙◌, leb, ◌==◌,
  Bool, true, false, ◌&&◌, ◌||◌, List, [], ◌∷◌, any, filter, map, arith, All, All-imp,
}
use course_project.Base.Int.{ℤ, pos, negsuc}
use course_project.Db.Rows.{OrderStatusRow}
use course_project.Orders.Events.{
  OrderStatusEvent, insert_by_event_id, order_by_event_id, is_above, to_event, since, write_all,
}
use course_project.Orders.Write.{has_event, IsAscending, write_all-sends}
use mathlib.Core.List.{Memᴰ}
use mathlib.Core.List.Memᴰ

insert_by_event_id-All :
    (m : ℕ) (row : OrderStatusRow) (rows : List OrderStatusRow)
    → m ≤ row.event_id
    → All (λ (f : OrderStatusEvent). m ≤ f.id) (map to_event rows)
    → All (λ (f : OrderStatusEvent). m ≤ f.id) (map to_event (insert_by_event_id row rows))
unfolding insert_by_event_id
insert_by_event_id-All m row [] h hs = (h, tt)
insert_by_event_id-All m row (r ∷ rows) h (hr, hs) =
    elim (leb row.event_id r.event_id)
      as (λ b.
        All (λ (f : OrderStatusEvent). m ≤ f.id)
          (map to_event (if b then row ∷ r ∷ rows else r ∷ insert_by_event_id row rows))) [
            | true ↦ (h, (hr, hs))
            | false ↦ (hr, insert_by_event_id-All m row rows h hs)
          ]

insert_by_event_id-IsAscending :
    (row : OrderStatusRow) (rows : List OrderStatusRow)
    → IsAscending (map to_event rows)
    → IsAscending (map to_event (insert_by_event_id row rows))
unfolding insert_by_event_id
insert_by_event_id-IsAscending row [] up = (tt, tt)
insert_by_event_id-IsAscending row (r ∷ rows) (le, up) =
    placed (leb row.event_id r.event_id) refl (insert_by_event_id-IsAscending row rows up)
  where
    placed :
        (b : Bool)
        → leb row.event_id r.event_id ≡ b
        → IsAscending (map to_event (insert_by_event_id row rows))
        → IsAscending (map to_event (if b then row ∷ r ∷ rows else r ∷ insert_by_event_id row rows))
    placed true first rest = (
      (
        ground (arith, first),
        All-imp (λ (f : OrderStatusEvent). r.event_id ≤ f.id)
            (λ (f : OrderStatusEvent). row.event_id ≤ f.id) (map to_event rows)
            (λ f h. ground (arith, first, h)) le,
      ),
      (le, up),
    )
    placed false later rest =
        (insert_by_event_id-All r.event_id row rows (ground (arith, later)) le, rest)

order_by_event_id-IsAscending :
    (rows : List OrderStatusRow) → IsAscending (map to_event (order_by_event_id rows))
unfolding order_by_event_id
order_by_event_id-IsAscending [] = tt
order_by_event_id-IsAscending (row ∷ rows) =
    insert_by_event_id-IsAscending row (order_by_event_id rows) (order_by_event_id-IsAscending rows)

insert_by_event_id-has_event :
    (id : ℕ) (row : OrderStatusRow) (rows : List OrderStatusRow)
    → has_event id (map to_event (insert_by_event_id row rows))
      ≡ ((row.event_id == id) || has_event id (map to_event rows))
unfolding insert_by_event_id
insert_by_event_id-has_event id row [] = refl
insert_by_event_id-has_event id row (r ∷ rows) =
    ground (arith, insert_by_event_id-has_event id row rows)

order_by_event_id-has_event :
    (id : ℕ) (rows : List OrderStatusRow)
    → has_event id (map to_event (order_by_event_id rows)) ≡ has_event id (map to_event rows)
unfolding order_by_event_id
order_by_event_id-has_event id [] = refl
order_by_event_id-has_event id (row ∷ rows) = ground (
  arith,
  insert_by_event_id-has_event id row (order_by_event_id rows),
  order_by_event_id-has_event id rows,
)

-- The log has event `event_id` of order `id`.
abbrev pub is_logged : ℕ → ℕ → List OrderStatusRow → Bool
is_logged id event_id = any λ row. row.order_id == id && row.event_id == event_id

filter-has_event :
    (id event_id : ℕ) (last : ℤ) (rows : List OrderStatusRow)
    → is_above last event_id ≡ true
    → is_logged id event_id rows ≡ true
    → has_event event_id (
        map to_event (
          filter (λ (row : OrderStatusRow). row.order_id == id && is_above last row.event_id) rows))
      ≡ true
filter-has_event id event_id last [] above logged = cc
filter-has_event id event_id (pos n) (row ∷ rows) above logged =
    ground (arith, filter-has_event id event_id (pos n) rows)
filter-has_event id event_id (negsuc n) (row ∷ rows) above logged =
    ground (arith, filter-has_event id event_id (negsuc n) rows)

insert_by_event_id-mem :
    (r row : OrderStatusRow) (rows : List OrderStatusRow)
    → Memᴰ r (insert_by_event_id row rows)
    → (r ≡ row) ⊎ Memᴰ r rows
unfolding insert_by_event_id
insert_by_event_id-mem r row [] m = Memᴰ.cases_cons m
insert_by_event_id-mem r row (x ∷ rows) m = elim (Bool-cases (leb row.event_id x.event_id)) [
  | inl first ↦
      let whole : insert_by_event_id row (x ∷ rows) ≡ row ∷ x ∷ rows = rw first refl in
      Memᴰ.cases_cons (subst (Memᴰ r) whole m)
  | inr later ↦
      let whole : insert_by_event_id row (x ∷ rows) ≡ x ∷ insert_by_event_id row rows =
        rw later refl in
      elim (Memᴰ.cases_cons (subst (Memᴰ r) whole m)) [
        | inl here ↦ inr (Memᴰ.head here)
        | inr behind ↦ elim (insert_by_event_id-mem r row rows behind) [
          | inl new ↦ inl new
          | inr old ↦ inr (Memᴰ.tail old)
        ]
      ]
]

order_by_event_id-mem :
    (r : OrderStatusRow) (rows : List OrderStatusRow)
    → Memᴰ r (order_by_event_id rows)
    → Memᴰ r rows
unfolding order_by_event_id
order_by_event_id-mem r [] m = m
order_by_event_id-mem r (row ∷ rows) m =
    elim (insert_by_event_id-mem r row (order_by_event_id rows) m) [
      | inl here ↦ Memᴰ.head here
      | inr behind ↦ Memᴰ.tail (order_by_event_id-mem r rows behind)
    ]

filter-mem :
    (p : OrderStatusRow → Bool) (r : OrderStatusRow) (rows : List OrderStatusRow)
    → Memᴰ r (filter p rows)
    → Memᴰ r rows × (p r ≡ true)
filter-mem p r [] m = absurd (Memᴰ.not-nil m)
filter-mem p r (row ∷ rows) m = elim (Bool-cases (p row)) [
  | inl kept ↦
      let whole : filter p (row ∷ rows) ≡ row ∷ filter p rows = rw kept refl in
      elim (Memᴰ.cases_cons (subst (Memᴰ r) whole m)) [
        | inl here ↦ (Memᴰ.head here, ap p here ∙ kept)
        | inr behind ↦ let (there, holds) = filter-mem p r rows behind in (Memᴰ.tail there, holds)
      ]
  | inr dropped ↦
      let whole : filter p (row ∷ rows) ≡ filter p rows = rw dropped refl in
      let (there, holds) = filter-mem p r rows (subst (Memᴰ r) whole m) in (Memᴰ.tail there, holds)
]

-- The log has a row for order `id` and event `event_id`, and the list the event with its status.
abbrev pub IsSent : ℕ → ℕ → List OrderStatusRow → List OrderStatusEvent → Type 0
IsSent id event_id log sent =
    (row : OrderStatusRow) × Memᴰ row log
    × (row.order_id ≡ id)
    × (row.event_id ≡ event_id)
    × Memᴰ (record { id = event_id; order_id = id; status = row.status }) sent

-- What `since` answers is written whole, with what the log says of each event.
pub since-IsSent :
    (id event_id : ℕ) (last : ℤ) (log : List OrderStatusRow) (more : List OrderStatusEvent)
    → is_above last event_id ≡ true
    → is_logged id event_id log ≡ true
    → IsSent id event_id log (write_all last (since id last log ++ more))
unfolding since
since-IsSent id event_id last log more above logged =
    let p : OrderStatusRow → Bool = λ row. row.order_id == id && is_above last row.event_id in
    let (row, m, e, sent) =
      write_all-sends last event_id (order_by_event_id (filter p log)) more
        (order_by_event_id-IsAscending (filter p log)) above
        (order_by_event_id-has_event event_id (filter p log)
          ∙ filter-has_event id event_id last log above logged) in
    let (there, holds) = filter-mem p row log (order_by_event_id-mem row (filter p log) m) in
    let ours : row.order_id ≡ id = ground (arith, holds) in
    let written : List OrderStatusEvent = write_all last (since id last log ++ more) in
    let numbered : Memᴰ (record { id = event_id; order_id = row.order_id; status = row.status })
        written =
      subst (λ n. Memᴰ (record { id = n; order_id = row.order_id; status = row.status }) written) e
        sent in
    (
      row,
      there,
      ours,
      e,
      subst (λ o. Memᴰ (record { id = event_id; order_id = o; status = row.status }) written) ours
          numbered,
    )
