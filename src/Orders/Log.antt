-- ===== src/Orders/Log.antt =====
-- orders/order-events.service.ts: the log of an order holds its last events, numbered without gaps.
pub mod Numbers
use course_project.Base.{
  map, ℕ, zero, suc, ◌+◌, ◌-◌, ◌≡◌, ◌≢◌, ◌≤◌, ◌<◌, refl, sym, subst, ap, ◌∙◌, ltb, leb, ◌==◌,
  ==_iff, false, not, none, some, List, [], ◌∷◌, ◌++◌, filter, if◌then◌else◌, ok, err, arith,
  Bool-cases, inl, inr,
}
use course_project.Db.Rows.{OrderStatus, OrderStatusRow, int4_max}
use course_project.Orders.Events.{OrderStatusEvent}
use course_project.Orders.Publish.{
  buffer_limit, event_id_out_of_range, ids_of, max_of, insert_desc, order_desc, nth, drop_up_to,
  trim_log, status_row, publish_rows,
}
use course_project.Orders.Log.Numbers.{
  run_up, run_down, run_up-snoc, max_of-run_up, insert_desc-run_down, order_desc-run_up,
  nth-run_down, filter-run_up, filter-run_up_first, suc-max_of-run_up,
}

-- Rows of other orders are not seen and not deleted.
ids_of-append :
    (q : ℕ) (table : List OrderStatusRow) (row : OrderStatusRow)
    → ids_of q (table ++ row ∷ [])
      ≡ (if row.order_id == q then ids_of q table ++ row.event_id ∷ [] else ids_of q table)
ids_of-append q [] row = ground arith
ids_of-append q (r ∷ table) row = ground (arith, ids_of-append q table row)

ids_of-drop_up_to :
    (q o last : ℕ) (table : List OrderStatusRow)
    → ids_of q (drop_up_to o (some last) table)
      ≡ (if o == q then filter (λ id. not (leb id last)) (ids_of q table) else ids_of q table)
ids_of-drop_up_to q o last [] = ground arith
ids_of-drop_up_to q o last (r ∷ table) = ground (arith, ids_of-drop_up_to q o last table)

-- The log of order `q`: consecutive numbers from `lo` on, at most as many as the limit.
abbrev pub IsLog : ℕ → ℕ → ℕ → List OrderStatusRow → Type 0
IsLog q lo n table =
    (ids_of q table ≡ run_up lo n) × (n ≤ buffer_limit) × (0 < lo) × (n ≡ 0 → lo ≡ 1)

trim_log-short :
    (o lo n : ℕ) (table : List OrderStatusRow)
    → ids_of o table ≡ run_up lo n
    → n ≤ buffer_limit
    → trim_log o table ≡ table
unfolding trim_log
trim_log-short o lo n table ids short =
    let nothing : nth buffer_limit (order_desc (ids_of o table)) ≡ none =
      ap (λ l. nth buffer_limit (order_desc l)) ids
      ∙ ap (nth buffer_limit) (order_desc-run_up lo n)
      ∙ nth-run_down lo n buffer_limit
      ∙ ground arith in
    ap (λ b. drop_up_to o b table) nothing

nth-full :
    (o lo : ℕ) (table : List OrderStatusRow)
    → ids_of o table ≡ run_up lo (suc buffer_limit)
    → nth buffer_limit (order_desc (ids_of o table)) ≡ some lo
nth-full o lo table ids =
    ap (λ l. nth buffer_limit (order_desc l)) ids
    ∙ ap (nth buffer_limit) (order_desc-run_up lo (suc buffer_limit))
    ∙ nth-run_down lo (suc buffer_limit) buffer_limit
    ∙ ap some (omega arith)

trim_log-long :
    (q o lo : ℕ) (table : List OrderStatusRow)
    → ids_of o table ≡ run_up lo (suc buffer_limit)
    → ids_of q (trim_log o table)
      ≡ (if o == q then run_up (suc lo) buffer_limit else ids_of q table)
unfolding trim_log
trim_log-long q o lo table ids =
    ap (λ b. ids_of q (drop_up_to o b table)) (nth-full o lo table ids)
    ∙ ids_of-drop_up_to q o lo table
    ∙ elim (Bool-cases (o == q)) [
      | inl same ↦ rw same (
          ap (λ j. filter (λ id. not (leb id lo)) (ids_of j table)) (sym ((==_iff o q).0 same))
          ∙ ap (filter (λ id. not (leb id lo))) ids
          ∙ filter-run_up_first lo buffer_limit)
      | inr other ↦ rw other refl
    ]

-- The rows of order `q`, and what is left of rows if one too many.
abbrev pub rows_of : ℕ → List OrderStatusRow → List OrderStatusRow
rows_of q = filter λ (r : OrderStatusRow). r.order_id == q

abbrev pub without_first : List OrderStatusRow → List OrderStatusRow
without_first [] = []
without_first (r ∷ rows) = rows

ids_of-rows_of :
    (q : ℕ) (table : List OrderStatusRow)
    → ids_of q table ≡ map (λ (r : OrderStatusRow). r.event_id) (rows_of q table)
ids_of-rows_of q [] = refl
ids_of-rows_of q (r ∷ table) = ground (arith, ids_of-rows_of q table)

rows_of-append :
    (q : ℕ) (table : List OrderStatusRow) (row : OrderStatusRow)
    → rows_of q (table ++ row ∷ [])
      ≡ (if row.order_id == q then rows_of q table ++ row ∷ [] else rows_of q table)
rows_of-append q [] row = ground arith
rows_of-append q (r ∷ table) row = ground (arith, rows_of-append q table row)

rows_of-drop_up_to :
    (q o last : ℕ) (table : List OrderStatusRow)
    → rows_of q (drop_up_to o (some last) table) ≡ (
        if o == q
        then filter (λ (r : OrderStatusRow). not (leb r.event_id last)) (rows_of q table)
        else rows_of q table)
rows_of-drop_up_to q o last [] = ground arith
rows_of-drop_up_to q o last (r ∷ table) = ground (arith, rows_of-drop_up_to q o last table)

-- Rows that are numbered from `lo` on are all above `last`, if `lo` is.
filter-numbered :
    (lo n last : ℕ) (rows : List OrderStatusRow)
    → map (λ (r : OrderStatusRow). r.event_id) rows ≡ run_up lo n
    → last < lo
    → filter (λ (r : OrderStatusRow). not (leb r.event_id last)) rows ≡ rows
filter-numbered lo n last [] ids low = refl
filter-numbered lo zero last (r ∷ rows) ids low = cc
filter-numbered lo (suc n) last (r ∷ rows) ids low =
    ground (arith, ids, low, filter-numbered (suc lo) n last rows)

filter-numbered_first :
    (lo n : ℕ) (rows : List OrderStatusRow)
    → map (λ (r : OrderStatusRow). r.event_id) rows ≡ run_up lo n
    → filter (λ (r : OrderStatusRow). not (leb r.event_id lo)) rows ≡ without_first rows
filter-numbered_first lo n [] ids = refl
filter-numbered_first lo zero (r ∷ rows) ids = cc
filter-numbered_first lo (suc n) (r ∷ rows) ids =
    ground (arith, ids, filter-numbered (suc lo) n lo rows)

-- The log after a new event: one longer, or at the limit one further.
abbrev pub lo_after : ℕ → ℕ → ℕ
lo_after lo n = if ltb n buffer_limit then lo else suc lo

abbrev pub n_after : ℕ → ℕ
n_after n = if ltb n buffer_limit then suc n else n

module _ (o : ℕ) (status : OrderStatus) (table : List OrderStatusRow) (lo n : ℕ)
    (log : IsLog o lo n table) where
  next_id : suc (max_of (ids_of o table)) ≡ lo + n
  next_id = ap (λ l. suc (max_of l)) log.0 ∙ suc-max_of-run_up lo n log.3

  abbrev status_event : ℕ → OrderStatusEvent
  status_event id = record { id = id; order_id = o; status = status }

  abbrev added : List OrderStatusRow
  added = table ++ status_row o (lo + n) status ∷ []

  ids_of-added : ids_of o added ≡ run_up lo (suc n)
  ids_of-added =
      ids_of-append o table (status_row o (lo + n) status)
      ∙ ground arith
      ∙ ap (λ l. l ++ (lo + n) ∷ []) log.0
      ∙ run_up-snoc lo n

  trimmed-IsLog : IsLog o (lo_after lo n) (n_after n) (trim_log o added)
  trimmed-IsLog = elim (Bool-cases (ltb n buffer_limit)) [
    | inl room ↦ rw room (
      ap (ids_of o) (trim_log-short o lo (suc n) added ids_of-added (ground (arith, room)))
          ∙ ids_of-added,
      ground (arith, room),
      log.2,
      λ e. absurd (omega arith),
    )
    | inr crowded ↦
        let full : n ≡ buffer_limit = ground (arith, crowded) in
        rw crowded (
          trim_log-long o o lo added (ids_of-added ∙ ap (λ k. run_up lo (suc k)) full)
              ∙ ap (λ b. if b then run_up (suc lo) buffer_limit else ids_of o added)
                  ((==_iff o o).1 refl)
              ∙ ap (run_up (suc lo)) (sym full),
          log.1,
          omega arith,
          λ e. absurd (omega arith),
        )
  ]

  -- The rows of the order with the new one, without the oldest if the log was full.
  abbrev rows_after : List OrderStatusRow
  rows_after =
      let rows = rows_of o table ++ status_row o (lo + n) status ∷ [] in
      if ltb n buffer_limit then rows else without_first rows

  rows_of-added : rows_of o added ≡ rows_of o table ++ status_row o (lo + n) status ∷ []
  rows_of-added = rows_of-append o table (status_row o (lo + n) status) ∙ ground arith

  rows_of-added_other : (q : ℕ) → q ≢ o → rows_of q added ≡ rows_of q table
  rows_of-added_other q other =
      rows_of-append q table (status_row o (lo + n) status) ∙ ground (arith, other)

  -- In a full log, the oldest event is dropped.
  rows_of-trimmed :
      (q : ℕ)
      → n ≡ buffer_limit
      → rows_of q (trim_log o added) ≡ (
          if o == q
          then filter (λ (r : OrderStatusRow). not (leb r.event_id lo)) (rows_of q added)
          else rows_of q added)
  unfolding trim_log
  rows_of-trimmed q full =
      ap (λ b. rows_of q (drop_up_to o b added))
        (nth-full o lo added (ids_of-added ∙ ap (λ k. run_up lo (suc k)) full))
      ∙ rows_of-drop_up_to q o lo added

  trimmed_rows : rows_of o (trim_log o added) ≡ rows_after
  trimmed_rows = elim (Bool-cases (ltb n buffer_limit)) [
    | inl room ↦ rw room (
        ap (rows_of o) (trim_log-short o lo (suc n) added ids_of-added (ground (arith, room)))
        ∙ rows_of-added)
    | inr crowded ↦ rw crowded (
        rows_of-trimmed o (ground (arith, crowded, log.1))
        ∙ ap
            (λ b.
              if b
              then filter (λ (r : OrderStatusRow). not (leb r.event_id lo)) (rows_of o added)
              else rows_of o added)
            ((==_iff o o).1 refl)
        ∙ filter-numbered_first lo (suc n) (rows_of o added)
            (sym (ids_of-rows_of o added) ∙ ids_of-added)
        ∙ ap without_first rows_of-added)
  ]

  trimmed_rows_other : (q : ℕ) → q ≢ o → rows_of q (trim_log o added) ≡ rows_of q table
  trimmed_rows_other q other = elim (Bool-cases (ltb n buffer_limit)) [
    | inl room ↦
        ap (rows_of q) (trim_log-short o lo (suc n) added ids_of-added (ground (arith, room)))
        ∙ rows_of-added_other q other
    | inr crowded ↦
        let apart : (o == q) ≡ false = ground (arith, other) in
        rows_of-trimmed q (ground (arith, crowded, log.1))
        ∙ ap
            (λ b.
              if b
              then filter (λ (r : OrderStatusRow). not (leb r.event_id lo)) (rows_of q added)
              else rows_of q added)
            apart
        ∙ rows_of-added_other q other
  ]

  published :
      lo + n ≤ int4_max
      → publish_rows o status table ≡ (ok (status_event (lo + n)), trim_log o added)
  unfolding publish_rows
  published fits =
      ap
        (λ id.
          if ltb int4_max id
          then (err event_id_out_of_range, table)
          else (ok (status_event id), trim_log o (table ++ status_row o id status ∷ [])))
        next_id
      ∙ ground (arith, fits)

  -- If the log of an order has at most the limit of events, numbered without gaps, and the next
  -- number is an int4, then publishing gives the new event the next number and its status, keeps the
  -- numbers so and at most as many, appends the event to the rows of the order, dropping the oldest
  -- row if the log was full, and leaves the rows of the other orders as they are.
  pub publish_rows-IsLog :
      lo + n ≤ int4_max
      → let (r, after) = publish_rows o status table in
        let rows =
          rows_of o table ++ (record { order_id = o; event_id = lo + n; status = status }) ∷ [] in
        (r ≡ ok (record { id = lo + n; order_id = o; status = status }))
        × IsLog o (lo_after lo n) (n_after n) after
        × (rows_of o after ≡ (if ltb n buffer_limit then rows else without_first rows))
        × ((q : ℕ) → q ≢ o → rows_of q after ≡ rows_of q table)
  publish_rows-IsLog fits =
      let kept : trim_log o added ≡ (publish_rows o status table).1 =
        sym (ap (λ r. r.1) (published fits)) in
      (
        ap (λ r. r.0) (published fits),
        subst (IsLog o (lo_after lo n) (n_after n)) kept trimmed-IsLog,
        ap (rows_of o) (sym kept) ∙ trimmed_rows,
        λ q other. ap (rows_of q) (sym kept) ∙ trimmed_rows_other q other,
      )
