-- ===== src/Tests/CheckoutTests.antt =====
-- Checkouts on a shop with one product and one buyer.
use course_project.Base.{
  Bool, ap, ◌⊎◌, ◌≡◌, refl, true, false, none, some, List, [], ◌∷◌, Result, ok, err, if◌then◌else◌,
}
use course_project.Base.Text.{codes, text_eq, trim}
use course_project.Db.Rows.{Db}
use course_project.Checkout.Steps.{
  CheckoutInput, Clock, Placed, CheckoutError, database, unique_violation, rejected, Rejection,
  idempotency_reuse, reserve_line, reserve_lines, debit,
}
use course_project.Checkout.Run.{
  claim_key, reserve, pay, insert_items, save_order, save_job, insert_outbox, bind_key, place_order,
  checkout_tx, checkout,
}
use course_project.Checkout.Written.{IsRefused, IsReplayed, IsWritten, checkout_outcome}
use course_project.Checkout.Conservation.{run, Conserves, run-Conserves}
use course_project.Checkout.Idempotency.{checkout-retry}
use course_project.Checkout.Orders.{checkout-duplicate_lines}
use course_project.Tests.Fixtures.{shop-HasKeys, host, clock, shop, two_widgets, split_lines}

-- What a call returns; its line names all that a test has to run.
outcome : CheckoutInput → Db → Result CheckoutError Placed
unfolding checkout checkout_tx place_order claim_key reserve reserve_lines reserve_line pay debit
    save_order insert_items save_job insert_outbox bind_key trim text_eq
outcome input db = (checkout host input clock db).0

-- The first call places order 1 for 200 cents.
two_widgets_placed :
    (checkout host two_widgets clock shop).0 ≡ ok (record { order_id = 1; created = true })
unfolding outcome
two_widgets_placed = refl

abbrev shop_after : Db
shop_after = (checkout host two_widgets clock shop).1

split_lines_refused : (checkout host split_lines clock shop).0 ≡ err (database unique_violation)
unfolding outcome
split_lines_refused = refl

abbrev too_many : CheckoutInput
too_many = record two_widgets {
  items = (record { product_id = 7; quantity = 4 }) ∷ [];
  idempotency_key = none;
}

too_many_refused : (checkout host too_many clock shop).0 ≡ err (rejected Rejection.out_of_stock)
unfolding outcome
too_many_refused = refl

abbrev calls : List (CheckoutInput × Clock)
calls = (two_widgets, clock) ∷ (split_lines, clock) ∷ (two_widgets, clock) ∷ (too_many, clock) ∷ []

run-Conserves_example : Conserves 7 2 shop (run host calls shop)
run-Conserves_example = run-Conserves host 7 2 calls shop shop-HasKeys

checkout-retry_example : checkout host two_widgets clock (run host calls shop_after) ≡ (
  if text_eq (codes "f") (codes "f")
      then ok (record { order_id = 1; created = false })
      else err idempotency_reuse,
  run host calls shop_after,
)
unfolding trim
checkout-retry_example =
    checkout-retry host two_widgets clock calls two_widgets clock (codes "k1") shop shop_after
      (record { order_id = 1; created = true }) refl (ap (λ r. (r, shop_after)) two_widgets_placed)
      refl refl

checkout_outcome_example :
    let (r, after) = checkout host two_widgets clock shop in
    IsRefused host two_widgets clock shop r after
    ⊎ IsReplayed host two_widgets clock shop r after
    ⊎ IsWritten host two_widgets clock shop r after
checkout_outcome_example = checkout_outcome host two_widgets clock shop shop-HasKeys

-- A request with split lines and a key that names an order already.
abbrev split_again : CheckoutInput
split_again = record split_lines { idempotency_key = some (codes "k1") }

split_again_replayed :
    (checkout host split_again clock shop_after).0 ≡ ok (record { order_id = 1; created = false })
unfolding outcome
split_again_replayed = refl

checkout-duplicate_lines_example :
    ◌≡◌ {A = Bool} false false × ((checkout host split_again clock shop_after).1 ≡ shop_after)
checkout-duplicate_lines_example =
    checkout-duplicate_lines host split_again clock shop_after
      (checkout host split_again clock shop_after).1 (record { order_id = 1; created = false })
      (λ d. d.0.0 refl)
      (ap (λ r. (r, (checkout host split_again clock shop_after).1)) split_again_replayed)
