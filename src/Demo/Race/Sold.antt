-- ===== src/Demo/Race/Sold.antt =====
-- demo-race.ts: the checkouts, one after another.
use course_project.Base.{
  ℕ, zero, suc, ◌+◌, ◌-◌, ◌*◌, ◌≤◌, ◌<◌, ◌≡◌, refl, ap, ◌∙◌, ◌==◌, true, none, List, [], ◌∷◌, any,
  filter, length, Result, ok, err, arith, All, All-append, All-imp, Bool-cases, ==_iff, inl, inr,
}
use course_project.Checkout.Outcome.{committed}
use course_project.Checkout.Run.{checkout, checkout_tx, place_order, reserve}
use course_project.Checkout.Steps.{
  CheckoutInput, CheckoutError, rejected, out_of_stock, Placed, Clock, reserve_line, reserve_lines,
  payable,
}
use course_project.Db.Rows.{Db, User, Product, OrderItem, int4_max}
use course_project.Db.Tx.{transaction}
use course_project.Demo.Place.{one_line_trace, one_line-Succeeds, place_order-ok}
use course_project.Demo.Race.{
  RaceCode, placed_one, refused, is_placed, RaceError, race_input, code_of, cons_code, race,
}
use course_project.Demo.Race.Rows.{
  mul-suc, find-sold_out, sold-there, sold-stocked, paid-known, paid-rich,
}
use course_project.Js.{Host}

-- `left` pieces of the product are there, and the buyer can pay them all.
pub record IsRacing (buyer_id product_id price left : ℕ) (db : Db) : Type 0 where
  pub there : any (λ (p : Product). p.id == product_id) db.products ≡ true
  pub stocked :
      All (λ (p : Product). p.id ≡ product_id → (p.price ≡ price) × (p.stock ≡ left)) db.products
  pub known : any (λ (u : User). u.id == buyer_id) db.users ≡ true
  pub rich : All (λ (u : User). u.id ≡ buyer_id → left * price ≤ u.balance_cents) db.users
  pub new_items : All (λ (i : OrderItem). i.order_id < db.seq.order) db.order_items

module _ (host : Host) (buyer_id product_id price : ℕ) (clock : Clock) where
  abbrev input : CheckoutInput
  input = race_input buyer_id product_id

  sold_out :
      (db : Db)
      → IsRacing buyer_id product_id price 0 db
      → checkout host input clock db ≡ (err (rejected out_of_stock), db)
  unfolding checkout checkout_tx transaction place_order reserve reserve_lines reserve_line
  sold_out db r =
      let stuck = find-sold_out product_id price db.products r.stocked in
      ground (arith, stuck, r.there)

  payable-any :
      (users : List User) (left : ℕ)
      → any (λ (u : User). u.id == buyer_id) users ≡ true
      → All (λ (u : User). u.id ≡ buyer_id → suc left * price ≤ u.balance_cents) users
      → any (payable buyer_id price) users ≡ true
  payable-any [] left known rich = ground (arith, known)
  payable-any (u ∷ users) left known rich = elim (Bool-cases (u.id == buyer_id)) [
    | inl same ↦
        let enough = rich.0 ((==_iff u.id buyer_id).0 same) in
        ground (arith, same, enough, mul-suc left price)
    | inr other ↦
        ground (arith, other, payable-any users left (ground (arith, known, other)) rich.1)
  ]

  sale :
      (left : ℕ) (db : Db)
      → IsRacing buyer_id product_id price (suc left) db
      → price ≤ int4_max
      → checkout host input clock db ≡ (
        ok (record { order_id = db.seq.order; created = true }),
        committed host input clock none db (one_line_trace buyer_id product_id price db),
      )
  unfolding checkout checkout_tx transaction
  sale left db r small =
      let offered =
        All-imp (λ (p : Product). p.id ≡ product_id → (p.price ≡ price) × (p.stock ≡ suc left))
          (λ (p : Product). p.id ≡ product_id → (p.price ≡ price) × (1 ≤ p.stock)) db.products
          (λ p h e. ((h e).0, omega (arith, (h e).1))) r.stocked in
      let s =
        one_line-Succeeds input product_id price db refl (r.there, offered)
          (payable-any db.users left r.known r.rich) small r.new_items in
      ground (
        arith,
        place_order-ok host input clock none db (one_line_trace buyer_id product_id price db) refl
            s,
      )

  sale-IsRacing :
      (left : ℕ) (db : Db)
      → IsRacing buyer_id product_id price (suc left) db
      → IsRacing buyer_id product_id price left
          (committed host input clock none db (one_line_trace buyer_id product_id price db))
  sale-IsRacing left db r = record {
    there = sold-there product_id db.products ∙ r.there;
    stocked = sold-stocked product_id price left db.products r.stocked;
    known = paid-known buyer_id price db.users ∙ r.known;
    rich = paid-rich buyer_id price left db.users r.rich;
    new_items =
        All-append (λ (i : OrderItem). i.order_id < suc db.seq.order) db.order_items _
          (All-imp (λ (i : OrderItem). i.order_id < db.seq.order)
            (λ (i : OrderItem). i.order_id < suc db.seq.order) db.order_items
            (λ i h. omega (arith, h)) r.new_items)
          (omega arith, tt);
  }

module _ (host : Host) (buyer_id product_id price : ℕ) where
  race-cons :
      (clock : Clock) (clocks : List Clock) (db after final : Db) (r : Result CheckoutError Placed)
      (c : RaceCode) (codes : List RaceCode)
      → checkout host (race_input buyer_id product_id) clock db ≡ (r, after)
      → code_of r ≡ ok c
      → race host (race_input buyer_id product_id) clocks after ≡ (ok codes, final)
      → race host (race_input buyer_id product_id) (clock ∷ clocks) db ≡ (ok (c ∷ codes), final)
  unfolding race
  race-cons clock clocks db after final r c codes call code rest =
      let input = race_input buyer_id product_id in
      ap
        (λ (x : Result CheckoutError Placed × Db).
          (cons_code (code_of x.0) (race host input clocks x.1).0, (race host input clocks x.1).1))
        call
      ∙ ap (λ (y : Result RaceError (List RaceCode) × Db). (cons_code (code_of r) y.0, y.1)) rest
      ∙ ap (λ k. (cons_code k (ok codes), final)) code

  -- As many calls are placed as there are pieces, and the others are refused.
  pub record IsRaced (left n : ℕ) (codes : List RaceCode) (final : Db) : Type 0 where
    pub rest : ℕ
    pub remains : rest ≡ left - n
    pub placed : length (filter is_placed codes) + rest ≡ left
    pub racing : IsRacing buyer_id product_id price rest final

  pub race-IsRaced :
      (clocks : List Clock) (left : ℕ) (db : Db)
      → IsRacing buyer_id product_id price left db
      → price ≤ int4_max
      → (codes : List RaceCode) × (final : Db) × (race host
            (race_input buyer_id product_id)
            clocks
            db
          ≡ (ok codes, final))
        × IsRaced left (length clocks) codes final
  unfolding race
  race-IsRaced [] left db r small = (
    [],
    db,
    refl,
    record { rest = left; remains = omega arith; placed = omega arith; racing = r },
  )
  race-IsRaced (clock ∷ clocks) zero db r small =
      let (codes, final, run, raced) = race-IsRaced clocks zero db r small in
      (
        refused out_of_stock ∷ codes,
        final,
        race-cons clock clocks db db final (err (rejected out_of_stock)) (refused out_of_stock)
            codes (sold_out host buyer_id product_id price clock db r) refl run,
        record {
          rest = raced.rest;
          remains = omega (arith, raced.remains);
          placed = raced.placed;
          racing = raced.racing;
        },
      )
  race-IsRaced (clock ∷ clocks) (suc left) db r small =
      let after =
        committed host (race_input buyer_id product_id) clock none db
          (one_line_trace buyer_id product_id price db) in
      let (codes, final, run, raced) =
        race-IsRaced clocks left after
          (sale-IsRacing host buyer_id product_id price clock left db r) small in
      (
        placed_one ∷ codes,
        final,
        race-cons clock clocks db after final
            (ok (record { order_id = db.seq.order; created = true })) placed_one codes
            (sale host buyer_id product_id price clock left db r small) refl run,
        record {
          rest = raced.rest;
          remains = omega (arith, raced.remains);
          placed = omega (arith, raced.placed);
          racing = raced.racing;
        },
      )
