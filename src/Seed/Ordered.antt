-- ===== src/Seed/Ordered.antt =====
-- seed.ts: the orders.
use course_project.Base.{
  ℕ, ltb, ◌≡◌, inl, inr, refl, ◌∙◌, true, Option, none, some, List, any, ok, err, arith, any-append,
  Bool-cases,
}
use course_project.Base.Text.{Text}
use course_project.Db.Rows.{User, Product, int4_max}
use course_project.Checkout.Steps.{PricedLine}
use course_project.Checkout.Run.{insert_items}
use course_project.Seed.{
  OrderSpec, SeedOrders, entry_value, seed_order, is_buyer, is_seeded, spec_items, save_spec,
  saved_items, sum_from,
}
use course_project.Seed.Loop.{Holds, IsSettling}

-- Every id of the map is that of a user with the address.
abbrev pub IsMap : List User → List (Text × ℕ) → Type 0
IsMap users ids =
    (e : Text) (id : ℕ) → entry_value e ids ≡ some id → any (is_buyer e id) users ≡ true

module _ (users : List User) (ids : List (Text × ℕ)) (products : List (Text × Product)) where
  abbrev pub IsOrdered : OrderSpec → Unit {0} → SeedOrders → Type 0
  IsOrdered spec v t = any (is_seeded users spec) t.rows ≡ true

  saved_done :
      (spec : OrderSpec) (buyer total : ℕ) (t : SeedOrders)
      → any (is_buyer spec.buyer_email buyer) users ≡ true
      → (x : _)
      → Holds (seed_order users ids products) (IsOrdered spec) (saved_items spec buyer total t x)
  saved_done spec buyer total t b (err e, table, next) = tt
  saved_done spec buyer total t b (ok u, table, next) =
      any-append (is_seeded users spec) t.rows _ ∙ ground (arith, b)

  order_done :
      (spec : OrderSpec) (o : Option ℕ) (lines : Option (List PricedLine)) (t : SeedOrders)
      → IsMap users ids
      → entry_value spec.buyer_email ids ≡ o
      → Holds (seed_order users ids products) (IsOrdered spec) (save_spec spec o lines t)
  order_done spec o none t m g = tt
  order_done spec none (some lines) t m g = tt
  order_done spec (some buyer) (some lines) t m g =
      elim (Bool-cases (ltb int4_max (sum_from 0 lines))) [
        | inl large ↦ rw large tt
        | inr fits ↦ rw fits (
            saved_done spec buyer (sum_from 0 lines) t (m spec.buyer_email buyer g)
              (insert_items t.next lines t.items t.next_item))
      ]

  saved_kept :
      (spec q : OrderSpec) (buyer total : ℕ) (t : SeedOrders)
      → any (is_seeded users spec) t.rows ≡ true
      → (x : _)
      → Holds
          (seed_order users ids products)
          (λ v. IsOrdered spec v)
          (saved_items q buyer total t x)
  saved_kept spec q buyer total t d (err e, table, next) = tt
  saved_kept spec q buyer total t d (ok u, table, next) =
      any-append (is_seeded users spec) t.rows _ ∙ ground (arith, d)

  order_kept :
      (spec q : OrderSpec) (o : Option ℕ) (lines : Option (List PricedLine)) (t : SeedOrders)
      → any (is_seeded users spec) t.rows ≡ true
      → Holds (seed_order users ids products) (λ v. IsOrdered spec v) (save_spec q o lines t)
  order_kept spec q o none t d = tt
  order_kept spec q none (some lines) t d = tt
  order_kept spec q (some buyer) (some lines) t d =
      elim (Bool-cases (ltb int4_max (sum_from 0 lines))) [
        | inl large ↦ rw large tt
        | inr fits ↦ rw fits (
            saved_kept spec q buyer (sum_from 0 lines) t d
              (insert_items t.next lines t.items t.next_item))
      ]

  pub orders-IsSettling : IsMap users ids → IsSettling (seed_order users ids products) IsOrdered
  unfolding seed_order
  orders-IsSettling m = record {
    done = λ spec t. elim (Bool-cases (any (is_seeded users spec) t.rows)) [
      | inl there ↦ rw there there
      | inr new ↦ rw new (
          order_done spec (entry_value spec.buyer_email ids) (spec_items products spec.lines) t m
            refl)
    ];
    keep = λ spec q v t d. elim (Bool-cases (any (is_seeded users q) t.rows)) [
      | inl there ↦ rw there d
      | inr new ↦
          rw new
            (order_kept spec q (entry_value q.buyer_email ids) (spec_items products q.lines) t d)
    ];
    idle = λ spec v t d. rw d refl;
  }
