-- ===== src/Demo/Race/Rows.antt =====
-- demo-race.ts: the rows of the product and of the buyer, before and behind a checkout.
use course_project.Base.{
  ℕ, suc, ◌+◌, ◌-◌, ◌*◌, ◌≤◌, ◌≡◌, refl, ◌==◌, none, List, [], ◌∷◌, find, any, update, arith, All,
  Bool-cases, ==_iff, inl, inr,
}
use course_project.Checkout.Steps.{reservable, payable}
use course_project.Db.Rows.{User, Product}
use course_project.Demo.Place.{one_of}

pub mul-suc : (m n : ℕ) → suc m * n ≡ n + m * n
mul-suc m n = omega arith

pub find-sold_out :
    (id price : ℕ) (products : List Product)
    → All (λ (p : Product). p.id ≡ id → (p.price ≡ price) × (p.stock ≡ 0)) products
    → find (reservable (one_of id)) products ≡ none
find-sold_out id price [] stocked = refl
find-sold_out id price (p ∷ products) stocked = elim (Bool-cases (p.id == id)) [
  | inl same ↦ ground (
    arith,
    same,
    (stocked.0 ((==_iff p.id id).0 same)).1,
    find-sold_out id price products stocked.1,
  )
  | inr other ↦ ground (arith, other, find-sold_out id price products stocked.1)
]

-- One piece less.
pub sold-there :
    (id : ℕ) (products : List Product)
    → any
        (λ (p : Product). p.id == id)
        (update (reservable (one_of id)) (λ q. record q { stock = q.stock - 1 }) products)
      ≡ any (λ (p : Product). p.id == id) products
sold-there id [] = refl
sold-there id (p ∷ products) = ground (arith, sold-there id products)

pub sold-stocked :
    (id price left : ℕ) (products : List Product)
    → All (λ (p : Product). p.id ≡ id → (p.price ≡ price) × (p.stock ≡ suc left)) products
    → All
        (λ (p : Product). p.id ≡ id → (p.price ≡ price) × (p.stock ≡ left))
        (update (reservable (one_of id)) (λ q. record q { stock = q.stock - 1 }) products)
sold-stocked id price left [] h = tt
sold-stocked id price left (p ∷ products) h = (
  elim (Bool-cases (reservable (one_of id) p)) [
    | inl hit ↦ rw hit (λ e. ((h.0 e).0, omega (arith, (h.0 e).1)))
    | inr miss ↦ rw miss (λ e. absurd (ground (arith, miss, e, (h.0 e).1)))
  ],
  sold-stocked id price left products h.1,
)

-- One price less.
pub paid-known :
    (id price : ℕ) (users : List User)
    → any
        (λ (u : User). u.id == id)
        (update
          (payable id price)
          (λ u. record u { balance_cents = u.balance_cents - price })
          users)
      ≡ any (λ (u : User). u.id == id) users
paid-known id price [] = refl
paid-known id price (u ∷ users) = ground (arith, paid-known id price users)

pub paid-rich :
    (id price left : ℕ) (users : List User)
    → All (λ (u : User). u.id ≡ id → suc left * price ≤ u.balance_cents) users
    → All
        (λ (u : User). u.id ≡ id → left * price ≤ u.balance_cents)
        (update
          (payable id price)
          (λ u. record u { balance_cents = u.balance_cents - price })
          users)
paid-rich id price left [] h = tt
paid-rich id price left (u ∷ users) h = (
  elim (Bool-cases (payable id price u)) [
    | inl hit ↦ rw hit (λ e. omega (arith, h.0 e, mul-suc left price))
    | inr miss ↦ rw miss (λ e. absurd (ground (arith, miss, e, h.0 e, mul-suc left price)))
  ],
  paid-rich id price left users h.1,
)
