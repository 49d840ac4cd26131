-- ===== src/Outbox/Selection.antt =====
-- outbox/relay.ts: what the statements of the relay do to the table outbox.
use course_project.Base.{
  ℕ, zero, suc, ◌≡◌, refl, sym, ◌∙◌, Bool, true, not, ◌&&◌, ◌||◌, ◌==◌, List, [], ◌∷◌, any, filter,
  take, update, arith,
}
use course_project.Db.Rows.{OutboxRow}
use course_project.Outbox.Relay.{
  RelayOptions, is_unpublished, insert_row, order_rows, limit_of, select_rows, count_attempts,
  mark_published,
}

-- Row `id` is in the outbox; it is there and published.
abbrev pub has_row : ℕ → List OutboxRow → Bool
has_row id = any λ r. r.id == id

abbrev pub is_published : ℕ → List OutboxRow → Bool
is_published id = any λ r. r.id == id && not (is_unpublished r)

pub count_attempts-published :
    (id : ℕ) (rows table : List OutboxRow)
    → is_published id (count_attempts rows table) ≡ is_published id table
unfolding count_attempts
count_attempts-published id [] table = refl
count_attempts-published id (row ∷ rows) table = count_attempts-published id rows _ ∙ once table
  where
    once :
        (t : List OutboxRow)
        → is_published id (
            update
              (λ (r : OutboxRow). r.id == row.id)
              (λ r. record r { attempts = suc r.attempts })
              t)
          ≡ is_published id t
    once [] = refl
    once (r ∷ t) = ground (arith, once t)

pub count_attempts-has_row :
    (id : ℕ) (rows table : List OutboxRow)
    → has_row id (count_attempts rows table) ≡ has_row id table
unfolding count_attempts
count_attempts-has_row id [] table = refl
count_attempts-has_row id (row ∷ rows) table = count_attempts-has_row id rows _ ∙ once table
  where
    once :
        (t : List OutboxRow)
        → has_row id (
            update
              (λ (r : OutboxRow). r.id == row.id)
              (λ r. record r { attempts = suc r.attempts })
              t)
          ≡ has_row id t
    once [] = refl
    once (r ∷ t) = ground (arith, once t)

-- Marking a row publishes that row and no other.
pub mark_published-published :
    (now id j : ℕ) (t : List OutboxRow)
    → is_published j (mark_published now id t) ≡ (is_published j t || (id == j && has_row j t))
unfolding mark_published
mark_published-published now id j [] = ground arith
mark_published-published now id j (r ∷ t) = ground (arith, mark_published-published now id j t)

pub mark_published-has_row :
    (now id j : ℕ) (t : List OutboxRow) → has_row j (mark_published now id t) ≡ has_row j t
unfolding mark_published
mark_published-has_row now id j [] = refl
mark_published-has_row now id j (r ∷ t) = ground (arith, mark_published-has_row now id j t)

any-take :
    (p : OutboxRow → Bool) (n : ℕ) (rows : List OutboxRow)
    → any p (take n rows) ≡ true
    → any p rows ≡ true
any-take p zero rows h = cc
any-take p (suc n) [] h = cc
any-take p (suc n) (r ∷ rows) h = ground (arith, any-take p n rows)

any-insert_row :
    (p : OutboxRow → Bool) (row : OutboxRow) (rows : List OutboxRow)
    → any p (insert_row row rows) ≡ (p row || any p rows)
unfolding insert_row
any-insert_row p row [] = refl
any-insert_row p row (r ∷ rows) = ground (arith, any-insert_row p row rows)

any-order_rows :
    (p : OutboxRow → Bool) (rows : List OutboxRow) → any p (order_rows rows) ≡ any p rows
unfolding order_rows
any-order_rows p [] = refl
any-order_rows p (r ∷ rows) =
    ground (arith, any-insert_row p r (order_rows rows), any-order_rows p rows)

any-filter :
    (p q : OutboxRow → Bool) (rows : List OutboxRow)
    → any p (filter q rows) ≡ any (λ r. q r && p r) rows
any-filter p q [] = refl
any-filter p q (r ∷ rows) = ground (arith, any-filter p q rows)

any_weaken :
    (p q : OutboxRow → Bool) (rows : List OutboxRow)
    → any (λ r. q r && p r) rows ≡ true
    → any p rows ≡ true
any_weaken p q [] h = cc
any_weaken p q (r ∷ rows) h = ground (arith, any_weaken p q rows)

-- Every selected row is a row of the outbox.
pub any-select_rows :
    (p : OutboxRow → Bool) (opts : RelayOptions) (locked : List ℕ) (table : List OutboxRow)
    → any p (select_rows opts locked table) ≡ true
    → any p table ≡ true
unfolding select_rows
any-select_rows p opts locked table h =
    any_weaken p _ table
      (sym (any-filter p _ table) ∙ sym (any-order_rows p _) ∙ any-take p (limit_of opts) _ h)
