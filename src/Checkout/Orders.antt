-- ===== src/Checkout/Orders.antt =====
-- The lines that no order can have.
use course_project.Base.{
  ℕ, ◌+◌, ◌*◌, ◌≡◌, ◌≢◌, false, Option, none, some, List, [], ◌∷◌, ◌++◌, map, ok, arith, inl, inr,
  ◌∙◌, subst, ◌↔◌, Result-cases, All,
}
use mathlib.Core.List.{append-nil, append_assoc, map-append}
use course_project.Base.Text.{Text}
use course_project.Base.Tables.{Distinct}
use course_project.Js.{Host}
use course_project.Db.Rows.{Db}
use course_project.Checkout.Steps.{
  CheckoutInput, Clock, CheckoutLine, PricedLine, Placed, Reserved, reserve_line, reserve_lines,
  trimmed_key,
}
use course_project.Checkout.Run.{checkout}
use course_project.Checkout.Outcome.{no_lines, claimed, Trace, Succeeds, checkout-eq-ok}
use course_project.Checkout.StepLaws.{reserve_line-eq-ok, insert_items-Distinct}

abbrev asked : List CheckoutLine → List ℕ
asked = map λ l. l.product_id

abbrev ordered : List PricedLine → List ℕ
ordered = map λ l. l.product_id

-- The priced lines are for the products of the request, in its order.
reserve_lines-ordered :
    (items : List CheckoutLine) (acc r : Reserved)
    → reserve_lines items acc ≡ ok r
    → ordered r.lines ≡ ordered acc.lines ++ asked items
unfolding reserve_lines
reserve_lines-ordered [] acc r h = ground (arith, append-nil (ordered acc.lines))
reserve_lines-ordered (item ∷ items) acc r h =
    elim (Result-cases (reserve_line item acc.products)) [
      | inl (e, x) ↦ absurd (ground (arith, x))
      | inr ((l, ps), x) ↦
          let (_, same, _, _) = reserve_line-eq-ok item acc.products ps l x in
          let after : Reserved = record {
            lines = acc.lines ++ l ∷ [];
            total = acc.total + l.unit_price * l.quantity;
            products = ps;
          } in
          let ih = reserve_lines-ordered items after r (ground (arith, x)) in
          ih ∙ simp (map-append, append_assoc, same)
    ]

All-map :
    {A B : Type 0} (f : A → B) (P : B → Type 0) (xs : List A)
    → All (λ x. P (f x)) xs ↔ All P (map f xs)
All-map f P [] = (λ h. h, λ h. h)
All-map f P (x ∷ xs) = (λ h. (h.0, (All-map f P xs).0 h.1), λ h. (h.0, (All-map f P xs).1 h.1))

Distinct-map :
    {A K : Type 0} (key : A → K) (xs : List A) → Distinct key xs ↔ Distinct (λ k. k) (map key xs)
Distinct-map key [] = (λ h. h, λ h. h)
Distinct-map key (x ∷ xs) = (
  λ h. ((All-map key (λ k. k ≢ key x) xs).0 h.0, (Distinct-map key xs).0 h.1),
  λ h. ((All-map key (λ k. k ≢ key x) xs).1 h.0, (Distinct-map key xs).1 h.1),
)

Succeeds-Distinct :
    (input : CheckoutInput) (db : Db) (t : Trace)
    → Succeeds input db t
    → Distinct (λ l. l.product_id) input.items
Succeeds-Distinct input db t s = (Distinct-map (λ (l : CheckoutLine). l.product_id) input.items).1 (
    subst (Distinct (λ k. k))
      (reserve_lines-ordered input.items (no_lines db) t.reserved s.reserves)
      ((Distinct-map (λ (l : PricedLine). l.product_id) t.reserved.lines).0 (
        insert_items-Distinct db.seq.order t.reserved.lines db.order_items t.items db.seq.order_item
          t.next_item s.inserts)))

module _ (host : Host) (input : CheckoutInput) (clock : Clock) where
  claim_Succeeds-Distinct :
      (key : Option Text) (db : Db) (t : Trace)
      → Succeeds input (claimed key input db) t
      → Distinct (λ l. l.product_id) input.items
  claim_Succeeds-Distinct none db t s = Succeeds-Distinct input db t s
  claim_Succeeds-Distinct (some k) db t s = Succeeds-Distinct input (claimed (some k) input db) t s

  -- A request with two lines for one product never places an order: the call throws, or returns
  -- the order that an earlier request with the same key placed.
  pub checkout-duplicate_lines :
      (db db' : Db) (p : Placed)
      → ¬ Distinct (λ l. l.product_id) input.items
      → checkout host input clock db ≡ (ok p, db')
      → (p.created ≡ false) × (db' ≡ db)
  checkout-duplicate_lines db db' p twice h = elim (checkout-eq-ok host input clock db db' p h).1 [
    | inl (_, _, _, _, _, _, old, same) ↦ (old, same)
    | inr (t, s, _, _, _) ↦
        absurd (twice (claim_Succeeds-Distinct (trimmed_key input.idempotency_key) db t s))
  ]
