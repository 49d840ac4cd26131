-- ===== src/Demo/Race/Main.antt =====
-- demo-race.ts: the whole script.
use course_project.Base.{
  ℕ, ◌≤◌, ◌<◌, ◌≡◌, ◌≢◌, refl, ap, subst, ◌∙◌, ◌==◌, true, Option, none, some, List, [], ◌∷◌, ◌++◌,
  find, any, any-append, update, length, ok, arith, All, All-append, All-imp,
}
use course_project.Base.Text.{text_eq}
use course_project.Checkout.Steps.{Clock}
use course_project.Db.Rows.{Db, User, Product, OrderItem}
use course_project.Demo.Race.Sold.{IsRacing, race-IsRaced}
use course_project.Demo.Race.{
  attempts_at_once, race_stock, race_email, race_seller_email, race_product, RaceRows, race_ok,
  race_input, fund, race_row, insert_race, restock, count_negative, race_rows, on_codes, race,
  with_product, with_buyer, demo_race,
}
use course_project.Demo.Prepared.{found-any}
use course_project.Demo.Race.Setup.{
  race_price, any-found, found-known, fund-known, fund-email, fund-rich, restocked-there,
  restocked-stocked, stock-none_left, none_negative,
}
use course_project.Js.{Host}

-- The product of the race is there, with a price that lets the buyer pay for all pieces; or it is not,
-- and then its seller is, and its new id is new.
abbrev pub IsForSale : ℕ → List User → List Product → Option Product → Type 0
IsForSale next users products none =
    (any (λ (u : User). text_eq u.email race_seller_email) users ≡ true)
    × All (λ (q : Product). q.id ≢ next) products
IsForSale next users products (some p) =
    (p.price ≤ race_price) × All (λ (q : Product). q.id ≡ p.id → q.price ≡ p.price) products

abbrev pub all_sold : RaceRows
all_sold = record { succeeded = race_stock; final_stock = 0; negatives = 0 }

module _ (host : Host) (clocks : List Clock) where
  on_codes-sold :
      (buyer_id product_id price : ℕ) (db : Db)
      → length clocks ≡ attempts_at_once
      → price ≤ race_price
      → IsRacing buyer_id product_id price race_stock db
      → on_codes product_id (race host (race_input buyer_id product_id) clocks db) ≡ ok all_sold
  on_codes-sold buyer_id product_id price db fifty small r =
      let (codes, final, run, raced) =
        race-IsRaced host buyer_id product_id price clocks race_stock db r (omega (arith, small)) in
      let none_left : raced.rest ≡ 0 = omega (arith, raced.remains, fifty) in
      let racing = subst (λ n. IsRacing buyer_id product_id price n final) none_left raced.racing in
      ap (on_codes product_id) run
      ∙ ap (race_rows codes final.products)
          (stock-none_left product_id price final.products racing.there racing.stocked)
      ∙ ap
          (λ n.
            ok (record {
              succeeded = n;
              final_stock = 0;
              negatives = count_negative final.products;
            }))
          (omega (arith, raced.placed, none_left))
      ∙ ap (λ n. ok (record { succeeded = race_stock; final_stock = 0; negatives = n }))
          (none_negative final.products)

  with_product-sold :
      (buyer_id next : ℕ) (db : Db) (found : Option Product)
      → length clocks ≡ attempts_at_once
      → any (λ (u : User). u.id == buyer_id) db.users ≡ true
      → All (λ (i : OrderItem). i.order_id < db.seq.order) db.order_items
      → find (λ (p : Product). text_eq p.name race_product) db.products ≡ found
      → IsForSale next db.users db.products found
      → with_product host buyer_id clocks
          (record db { users = fund buyer_id db.users })
          (restock next
            (find (λ (u : User). text_eq u.email race_seller_email) (fund buyer_id db.users))
            db.products
            found)
        ≡ ok all_sold
  with_product-sold buyer_id next db none fifty known new found (seller, fresh) =
      let users = fund buyer_id db.users in
      let (s, sells) =
        any-found (λ (u : User). text_eq u.email race_seller_email) users
          (fund-email buyer_id race_seller_email db.users ∙ seller) in
      let row = race_row next s.id in
      ap
        (λ o.
          with_product host buyer_id clocks (record db { users = users })
            (insert_race next o db.products))
        sells
      ∙ on_codes-sold buyer_id next 100
          (record db { users = users; products = db.products ++ row ∷ [] }) fifty (omega arith)
          (record {
            there = any-append (λ (p : Product). p.id == next) db.products _ ∙ ground arith;
            stocked =
                All-append (λ (p : Product). p.id ≡ next → (p.price ≡ 100) × (p.stock ≡ race_stock))
                  db.products _
                  (All-imp (λ (p : Product). p.id ≢ next)
                    (λ (p : Product). p.id ≡ next → (p.price ≡ 100) × (p.stock ≡ race_stock))
                    db.products (λ p other e. absurd (other e)) fresh)
                  ((λ e. (refl, refl)), tt);
            known = fund-known buyer_id db.users ∙ known;
            rich = fund-rich buyer_id 100 db.users (omega arith);
            new_items = new;
          })
  with_product-sold buyer_id next db (some p) fifty known new found (small, same) =
      let products =
        update (λ (q : Product). q.id == p.id) (λ q. record q { stock = race_stock }) db.products in
      on_codes-sold buyer_id p.id p.price
        (record db { users = fund buyer_id db.users; products = products }) fifty small
        (record {
          there =
              restocked-there p.id db.products
              ∙ found-any (λ (q : Product). text_eq q.name race_product) db.products p found;
          stocked = restocked-stocked p.id p.price db.products same;
          known = fund-known buyer_id db.users ∙ known;
          rich = fund-rich buyer_id p.price db.users small;
          new_items = new;
        })

  with_buyer-sold :
      (next : ℕ) (db : Db) (found : Option User)
      → length clocks ≡ attempts_at_once
      → any (λ (u : User). text_eq u.email race_email) db.users ≡ true
      → All (λ (i : OrderItem). i.order_id < db.seq.order) db.order_items
      → IsForSale next db.users db.products
          (find (λ (p : Product). text_eq p.name race_product) db.products)
      → find (λ (u : User). text_eq u.email race_email) db.users ≡ found
      → with_buyer host next clocks db found ≡ ok all_sold
  with_buyer-sold next db none fifty there new sale found =
      let (u, there') = any-found (λ (u : User). text_eq u.email race_email) db.users there in
      absurd (ground (arith, found, there'))
  with_buyer-sold next db (some u) fifty there new sale found =
      with_product-sold u.id next db _ fifty
        (found-known (λ (v : User). text_eq v.email race_email) db.users u found) new refl sale

  -- Of fifty checkouts at once for a product with ten pieces, in whatever order they are let through,
  -- exactly ten are placed and all others rejected, no piece is left and no stock is negative. The
  -- buyer is there, items of orders have ids of past orders, and the product is there with a price at
  -- which the buyer can pay for all pieces, or its seller is there and its new id is new.
  pub demo_race-sold :
      (next : ℕ) (db : Db)
      → length clocks ≡ attempts_at_once
      → any (λ (u : User). text_eq u.email race_email) db.users ≡ true
      → All (λ (i : OrderItem). i.order_id < db.seq.order) db.order_items
      → IsForSale next db.users db.products
          (find (λ (p : Product). text_eq p.name race_product) db.products)
      → (demo_race host next clocks db ≡ ok all_sold) × (race_ok all_sold ≡ true)
  unfolding demo_race race_ok
  demo_race-sold next db fifty there new sale =
      (with_buyer-sold next db _ fifty there new sale refl, refl)
