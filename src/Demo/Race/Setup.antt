-- ===== src/Demo/Race/Setup.antt =====
-- demo-race.ts: the rows that the script prepares, and those that it reads in the end.
use course_project.Base.{
  ℕ, ◌*◌, ◌≤◌, ◌≡◌, refl, ap, ◌==◌, Bool, true, some, List, [], ◌∷◌, find, any, update, ok, arith,
  All, Bool-cases, ==_iff, inl, inr,
}
use course_project.Base.Text.{Text, text_eq}
use course_project.Db.Rows.{User, Product}
use course_project.Demo.Race.{race_stock, fund, stock_left, count_negative}

-- Ten pieces at this price are within the balance that the buyer gets.
abbrev pub race_price : ℕ
race_price = 10000000

pub any-found {ℓ} :
    {A : Type ℓ} (p : A → Bool) (xs : List A) → any p xs ≡ true → (x : A) × (find p xs ≡ some x)
any-found p [] h = absurd (ground (arith, h))
any-found p (x ∷ xs) h = elim (Bool-cases (p x)) [
  | inl hit ↦ (x, rw hit refl)
  | inr miss ↦ let (y, found) = any-found p xs (ground (arith, h, miss)) in (y, rw miss found)
]

pub found-known :
    (p : User → Bool) (users : List User) (u : User)
    → find p users ≡ some u
    → any (λ (v : User). v.id == u.id) users ≡ true
found-known p [] u h = absurd (ground (arith, h))
found-known p (v ∷ users) u h = elim (Bool-cases (p v)) [
  | inl hit ↦
      let same : v ≡ u = ground (arith, h, hit) in ground (arith, ap (λ (w : User). w.id) same)
  | inr miss ↦ ground (arith, found-known p users u (ground (arith, h, miss)))
]

pub fund-known :
    (id : ℕ) (users : List User)
    → any (λ (u : User). u.id == id) (fund id users) ≡ any (λ (u : User). u.id == id) users
fund-known id [] = refl
fund-known id (u ∷ users) = ground (arith, fund-known id users)

pub fund-email :
    (id : ℕ) (email : Text) (users : List User)
    → any (λ (u : User). text_eq u.email email) (fund id users)
      ≡ any (λ (u : User). text_eq u.email email) users
fund-email id email [] = refl
fund-email id email (u ∷ users) = ground (arith, fund-email id email users)

pub fund-rich :
    (id price : ℕ) (users : List User)
    → price ≤ race_price
    → All (λ (u : User). u.id ≡ id → race_stock * price ≤ u.balance_cents) (fund id users)
fund-rich id price [] small = tt
fund-rich id price (u ∷ users) small = (
  elim (Bool-cases (u.id == id)) [
    | inl hit ↦ rw hit (λ e. omega (arith, small))
    | inr miss ↦ rw miss (λ e. absurd (ground (arith, miss, e)))
  ],
  fund-rich id price users small,
)

pub restocked-there :
    (id : ℕ) (products : List Product)
    → any
        (λ (q : Product). q.id == id)
        (update (λ (q : Product). q.id == id) (λ q. record q { stock = race_stock }) products)
      ≡ any (λ (q : Product). q.id == id) products
restocked-there id [] = refl
restocked-there id (q ∷ products) = ground (arith, restocked-there id products)

pub restocked-stocked :
    (id price : ℕ) (products : List Product)
    → All (λ (q : Product). q.id ≡ id → q.price ≡ price) products
    → All
        (λ (q : Product). q.id ≡ id → (q.price ≡ price) × (q.stock ≡ race_stock))
        (update (λ (q : Product). q.id == id) (λ q. record q { stock = race_stock }) products)
restocked-stocked id price [] h = tt
restocked-stocked id price (q ∷ products) h = (
  elim (Bool-cases (q.id == id)) [
    | inl hit ↦ rw hit (λ e. (h.0 e, refl))
    | inr miss ↦ rw miss (λ e. absurd (ground (arith, miss, e)))
  ],
  restocked-stocked id price products h.1,
)

-- What is left when all pieces are sold.
pub stock-none_left :
    (id price : ℕ) (products : List Product)
    → any (λ (p : Product). p.id == id) products ≡ true
    → All (λ (p : Product). p.id ≡ id → (p.price ≡ price) × (p.stock ≡ 0)) products
    → stock_left (find (λ (p : Product). p.id == id) products) ≡ ok 0
stock-none_left id price [] h stocked = absurd (ground (arith, h))
stock-none_left id price (p ∷ products) h stocked = elim (Bool-cases (p.id == id)) [
  | inl hit ↦ rw hit (ap ok (stocked.0 ((==_iff p.id id).0 hit)).1)
  | inr miss ↦ rw miss (stock-none_left id price products (ground (arith, h, miss)) stocked.1)
]

pub none_negative : (products : List Product) → count_negative products ≡ 0
none_negative [] = refl
none_negative (p ∷ products) = ground (arith, none_negative products)
