-- ===== src/Seed/Again.antt =====
-- seed.ts: a second run.
use course_project.Base.{
  ℕ, ◌≡◌, inl, inr, refl, ap, sym, subst, ◌∙◌, true, false, some, List, [], ◌∷◌, find, any, Result,
  ok, err, arith, Bool-cases,
}
use course_project.Base.Text.{Text, text_eq, text_eq_iff}
use course_project.Db.Rows.{User, Product}
use course_project.Seed.{
  UserSpec, CatalogRow, OrderSpec, SeedError, SeedUsers, SeedProducts, SeedOrders, seed_user,
  has_address, entry_value, seed_product, seed_order, is_buyer,
}
use course_project.Seed.Loop.{loop, loop-again}
use course_project.Base.{All}
use course_project.Seed.{Shop, after_users, after_products, after_orders, seed}
use course_project.Seed.Loop.{loop-done}
use course_project.Seed.Funded.{IsFunded, users-IsSettling}
use course_project.Seed.Listed.{IsListed, products-IsSettling}
use course_project.Seed.Ordered.{IsMap, IsOrdered, orders-IsSettling}

find-buyer :
    (e : Text) (users : List User) (u : User)
    → find (has_address e) users ≡ some u
    → any (is_buyer e u.id) users ≡ true
find-buyer e [] u h = ground (arith, h)
find-buyer e (v ∷ users) u h = ground (arith, h, find-buyer e users u)

entry_value-head :
    (e j : Text) (v id : ℕ) (ids : List (Text × ℕ))
    → text_eq j e ≡ true
    → entry_value e ((j, v) ∷ ids) ≡ some id
    → v ≡ id
entry_value-head e j v id ids same g = ground (arith, same, g)

entry_value-tail :
    (e j : Text) (v id : ℕ) (ids : List (Text × ℕ))
    → text_eq j e ≡ false
    → entry_value e ((j, v) ∷ ids) ≡ some id
    → entry_value e ids ≡ some id
entry_value-tail e j v id ids other g = ground (arith, other, g)

entry_value-IsMap :
    (t : SeedUsers) (ids : List (Text × ℕ))
    → All (λ v. (r : UserSpec) × IsFunded r v t) ids
    → IsMap t.rows ids
entry_value-IsMap t [] h e id g = ground (arith, g)
entry_value-IsMap t ((j, v) ∷ ids) h e id g = elim (Bool-cases (text_eq j e)) [
  | inl same ↦
      let (r, d) = h.0 in
      subst (λ x. any (is_buyer x id) t.rows ≡ true) (sym d.name ∙ (text_eq_iff j e).0 same)
        (subst (λ i. any (is_buyer r.email i) t.rows ≡ true)
          (d.same_id ∙ entry_value-head e j v id ids same g)
          (find-buyer r.email t.rows d.user d.found))
  | inr other ↦ entry_value-IsMap t ids h.1 e id (entry_value-tail e j v id ids other g)
]

module _ (users : List UserSpec) (catalog : List CatalogRow) (specs : List OrderSpec) where
  IsAgain : Shop → Type 0
  unfolding seed
  IsAgain s = seed users catalog specs s ≡ (ok tt, s)

  orders-IsAgain :
      (u : SeedUsers) (p : SeedProducts) (o : SeedOrders) (ids : List (Text × ℕ))
      → (names : List (Text × Product)) (s : Shop) → IsMap u.rows ids
      → loop seed_user users [] u ≡ (ok ids, u)
      → loop (seed_product ids) catalog [] p ≡ (ok names, p)
      → (x : Result SeedError (List (Unit {0})) × SeedOrders)
      → loop (seed_order u.rows ids names) specs [] o ≡ x
      → after_orders (record { users = u; products = p; orders = o }) x ≡ (ok tt, s)
      → IsAgain s
  unfolding IsAgain seed
  orders-IsAgain u p o ids names s m hu hp (err e, t) ho h = ground (arith, h)
  orders-IsAgain u p o ids names s m hu hp (ok seen, t) ho h =
      let after : Shop = record { users = u; products = p; orders = t } in
      let again =
        loop-again (seed_order u.rows ids names) (IsOrdered u.rows ids names)
          (orders-IsSettling u.rows ids names m) specs [] seen o t ho in
      subst IsAgain (ap (λ x. x.1) h) (
        ap (after_users users catalog specs after) hu
        ∙ ap (after_products users catalog specs ids after) hp
        ∙ ap (after_orders after) again)

  products-IsAgain :
      (u : SeedUsers) (p : SeedProducts) (o : SeedOrders) (ids : List (Text × ℕ)) (s : Shop)
      → IsMap u.rows ids
      → loop seed_user users [] u ≡ (ok ids, u)
      → (x : Result SeedError (List (Text × Product)) × SeedProducts)
      → loop (seed_product ids) catalog [] p ≡ x
      → after_products users catalog specs ids (record { users = u; products = p; orders = o }) x
        ≡ (ok tt, s)
      → IsAgain s
  products-IsAgain u p o ids s m hu (err e, t) hp h = ground (arith, h)
  products-IsAgain u p o ids s m hu (ok names, t) hp h =
      orders-IsAgain u t o ids names s m hu
        (loop-again (seed_product ids) (IsListed ids) (products-IsSettling ids) catalog [] names p t
          hp)
        (loop (seed_order u.rows ids names) specs [] o) refl h

  users-IsAgain :
      (s s' : Shop) (x : Result SeedError (List (Text × ℕ)) × SeedUsers)
      → loop seed_user users [] s.users ≡ x
      → after_users users catalog specs s x ≡ (ok tt, s')
      → IsAgain s'
  users-IsAgain s s' (err e, t) hu h = ground (arith, h)
  users-IsAgain s s' (ok ids, t) hu h =
      products-IsAgain t s.products s.orders ids s'
        (entry_value-IsMap t ids
          (loop-done seed_user IsFunded users-IsSettling users [] ids s.users t tt hu))
        (loop-again seed_user IsFunded users-IsSettling users [] ids s.users t hu)
        (loop (seed_product ids) catalog [] s.products) refl h

  -- A run of the script on the tables that a successful run leaves succeeds and changes nothing.
  pub seed-again :
      (s s' : Shop)
      → seed users catalog specs s ≡ (ok tt, s')
      → seed users catalog specs s' ≡ (ok tt, s')
  unfolding seed IsAgain
  seed-again s s' h = users-IsAgain s s' (loop seed_user users [] s.users) refl h
