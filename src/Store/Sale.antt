-- ===== src/Store/Sale.antt =====
-- store/store.service.ts: what an order takes from the stock.
use course_project.Base.{
  ℕ, suc, ◌+◌, ◌==◌, ◌≡◌, ◌⊎◌, inl, inr, refl, ap, sym, ◌∙◌, Bool, true, false, if◌then◌else◌,
  Option, none, some, List, [], ◌∷◌, ◌++◌, find, any, Result, ok, err, arith, Bool-cases,
}
use course_project.Base.Int.{ℤ, pos, negsuc}
use course_project.Base.Text.{Text}
use course_project.Checkout.Steps.{CheckoutLine}
use course_project.Store.{
  minus, is_below, StoreProduct, StoreLine, StoreOrder, StoreError, StoreService, has_id, line_of,
  cons_line, lines_of, take_from, take_stock, placed, create_order,
}

-- The stock of a product, and how many of it are asked for.
abbrev pub less : ℕ → Option StoreProduct → Option StoreProduct
less n none = none
less n (some p) = some (record p { stock = minus p.stock n })

abbrev pub asked : ℕ → List CheckoutLine → ℕ
asked id [] = 0
asked id (item ∷ items) = (if item.product_id == id then item.quantity else 0) + asked id items

minus_twice : (z : ℤ) (m n : ℕ) → minus (minus z m) n ≡ minus z (m + n)
minus_twice (pos k) m n = ground arith
minus_twice (negsuc k) m n = ground arith

minus_zero : (z : ℤ) → minus z 0 ≡ z
minus_zero (pos k) = ground arith
minus_zero (negsuc k) = ground arith

take_from-find :
    (id j n : ℕ) (products : List StoreProduct)
    → find (has_id id) (take_from j n products)
      ≡ less (if j == id then n else 0) (find (has_id id) products)
take_from-find id j n [] = refl
take_from-find id j n (p ∷ products) =
    ground (arith, take_from-find id j n products, minus_zero p.stock)

less_twice : (m n : ℕ) (o : Option StoreProduct) → less n (less m o) ≡ less (m + n) o
less_twice m n none = refl
less_twice m n (some p) = ap (λ z. some (record p { stock = z })) (minus_twice p.stock m n)

less_zero : (o : Option StoreProduct) → less 0 o ≡ o
less_zero none = refl
less_zero (some p) = ap (λ z. some (record p { stock = z })) (minus_zero p.stock)

abbrev sold : ℕ → List StoreLine → ℕ
sold id [] = 0
sold id (line ∷ lines) = (if line.product.id == id then line.quantity else 0) + sold id lines

take_stock-find :
    (id : ℕ) (lines : List StoreLine) (products : List StoreProduct)
    → find (has_id id) (take_stock lines products)
      ≡ less (sold id lines) (find (has_id id) products)
unfolding take_stock
take_stock-find id [] products = sym (less_zero (find (has_id id) products))
take_stock-find id (line ∷ lines) products =
    take_stock-find id lines (take_from line.product.id line.quantity products)
    ∙ ap (less (sold id lines)) (take_from-find id line.product.id line.quantity products)
    ∙ less_twice (if line.product.id == id then line.quantity else 0) (sold id lines)
        (find (has_id id) products)

find-id :
    (id : ℕ) (products : List StoreProduct) (p : StoreProduct)
    → find (has_id id) products ≡ some p
    → p.id ≡ id
find-id id [] p h = ground (arith, h)
find-id id (q ∷ products) p h = ground (arith, h, find-id id products p)

-- The product is not there, or has less than the line asks for.
abbrev pub refuses : Option StoreProduct → CheckoutLine → Bool
refuses none item = true
refuses (some p) item = is_below p.stock item.quantity

abbrev pub is_refused : List StoreProduct → CheckoutLine → Bool
is_refused products item = refuses (find (has_id item.product_id) products) item

abbrev IsLine : List StoreProduct → CheckoutLine → Result StoreError StoreLine → Type 0
IsLine products item (err e) = is_refused products item ≡ true
IsLine products item (ok line) =
    (is_refused products item ≡ false)
    × (line.product.id ≡ item.product_id)
    × (line.quantity ≡ item.quantity)

line_of-IsLine :
    (products : List StoreProduct) (item : CheckoutLine) (o : Option StoreProduct)
    → find (has_id item.product_id) products ≡ o
    → IsLine products item (line_of item o)
line_of-IsLine products item none g = rw g refl
line_of-IsLine products item (some p) g = elim (Bool-cases (is_below p.stock item.quantity)) [
  | inl low ↦ rw low (rw g low)
  | inr enough ↦ rw enough (rw g enough, find-id item.product_id products p g, refl)
]

abbrev IsSold : List StoreProduct → List CheckoutLine → Result StoreError (List StoreLine) → Type 0
IsSold products items (err e) = any (is_refused products) items ≡ true
IsSold products items (ok lines) =
    (any (is_refused products) items ≡ false) × ((id : ℕ) → sold id lines ≡ asked id items)

cons_line-IsSold :
    (products : List StoreProduct) (item : CheckoutLine) (items : List CheckoutLine)
    → (x : Result StoreError StoreLine) (y : Result StoreError (List StoreLine))
    → IsLine products item x
    → IsSold products items y
    → IsSold products (item ∷ items) (cons_line x y)
cons_line-IsSold products item items (err e) y g h = rw g refl
cons_line-IsSold products item items (ok line) (err e) g h = ground (arith, h)
cons_line-IsSold products item items (ok line) (ok lines) g h =
    (ground (arith, g.0, h.0), λ id. ground (arith, g.1, g.2, h.1 id))

lines_of-IsSold :
    (products : List StoreProduct) (items : List CheckoutLine)
    → IsSold products items (lines_of products items)
unfolding lines_of
lines_of-IsSold products [] = (refl, λ id. refl)
lines_of-IsSold products (item ∷ items) =
    let o = find (has_id item.product_id) products in
    cons_line-IsSold products item items (line_of item o) (lines_of products items)
      (line_of-IsLine products item o refl) (lines_of-IsSold products items)

-- No line is refused, the order is the last one, and every product has lost what was asked for.
abbrev pub IsSale : List CheckoutLine → StoreService → StoreOrder → StoreService → Type 0
IsSale items s o t =
    (any (is_refused s.products) items ≡ false)
    × (t.orders ≡ s.orders ++ o ∷ [])
    × (o.id ≡ s.next_order_id)
    × (t.next_order_id ≡ suc s.next_order_id)
    × ((id : ℕ) → find (has_id id) t.products ≡ less (asked id items) (find (has_id id) s.products))

placed-IsSale :
    (now : Text) (items : List CheckoutLine) (s : StoreService)
    → (x : Result StoreError (List StoreLine)) → IsSold s.products items x
    → ((e : StoreError) × (placed now s x ≡ (err e, s))
        × (any (is_refused s.products) items ≡ true))
      ⊎ ((o : StoreOrder) × (t : StoreService) × (placed now s x ≡ (ok o, t)) × IsSale items s o t)
placed-IsSale now items s (err e) h = inl (e, refl, h)
placed-IsSale now items s (ok lines) h = inr (
  _,
  _,
  refl,
  (
    h.0,
    refl,
    refl,
    refl,
    λ id.
        take_stock-find id lines s.products
        ∙ ap (λ n. less n (find (has_id id) s.products)) (h.1 id),
  ),
)

-- If a line asks for a product that is not there, or for more than its stock, then the order is
-- refused and nothing changes. Otherwise it is added under the next id and the stock of every
-- product falls by the sum of the quantities that all lines ask of it.
pub create_order-IsSale :
    (now : Text) (items : List CheckoutLine) (s : StoreService)
    → ((e : StoreError) × (create_order now items s ≡ (err e, s))
        × (any (is_refused s.products) items ≡ true))
      ⊎ ((o : StoreOrder) × (t : StoreService) × (create_order now items s ≡ (ok o, t))
          × IsSale items s o t)
unfolding create_order
create_order-IsSale now items s =
    placed-IsSale now items s (lines_of s.products items) (lines_of-IsSold s.products items)
