-- ===== src/Checkout/Measures.antt =====
-- The quantities that checkouts move: stock and sold units of a product, balance and spending of a
-- user, and the value of lines.
use course_project.Base.{ℕ, ◌*◌, ◌==◌, if◌then◌else◌, List}
use course_project.Base.Tables.{sum_by}
use course_project.Db.Rows.{User, Product, Order, OrderItem}
use course_project.Checkout.Steps.{CheckoutLine, PricedLine}

-- How many units of product `p` are in stock.
abbrev pub stock_of : ℕ → List Product → ℕ
stock_of p = sum_by λ q. if q.id == p then q.stock else 0

-- How many units of product `p` stand on the lines of orders.
abbrev pub sold : ℕ → List OrderItem → ℕ
sold p = sum_by λ i. if i.product_id == p then i.quantity else 0

abbrev pub units : ℕ → List PricedLine → ℕ
units p = sum_by λ l. if l.product_id == p then l.quantity else 0

abbrev pub requested : ℕ → List CheckoutLine → ℕ
requested p = sum_by λ l. if l.product_id == p then l.quantity else 0

abbrev pub balance_of : ℕ → List User → ℕ
balance_of b = sum_by λ u. if u.id == b then u.balance_cents else 0

-- The sum of the totals of the orders of user `b`.
abbrev pub spent : ℕ → List Order → ℕ
spent b = sum_by λ o. if o.buyer_id == b then o.total else 0

abbrev pub amount : List PricedLine → ℕ
amount = sum_by λ l. l.unit_price * l.quantity

-- The value of the lines of order `o`.
abbrev pub lines_total : ℕ → List OrderItem → ℕ
lines_total o = sum_by λ i. if i.order_id == o then i.unit_price * i.quantity else 0
