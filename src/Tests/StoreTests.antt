-- ===== src/Tests/StoreTests.antt =====
-- Orders of the store in memory.
use course_project.Base.{
  ◌≡◌, ◌⊎◌, refl, true, Option, none, some, List, [], ◌∷◌, find, any, ok, err,
}
use course_project.Base.Int.{ℤ, negsuc}
use course_project.Checkout.Steps.{CheckoutLine}
use course_project.Store.{
  StoreProduct, StoreOrder, StoreService, StoreError, insufficient_stock, no_product, create_order,
  lines_of, take_stock, get_product, initial_store, has_id,
}
use course_project.Store.Sale.{IsSale, is_refused, create_order-IsSale}

abbrev stock_of : Option StoreProduct → Option ℤ
stock_of none = none
stock_of (some p) = some p.stock

abbrev four_mice : CheckoutLine
four_mice = record { product_id = 2; quantity = 4 }

abbrev four_and_four : List CheckoutLine
four_and_four = four_mice ∷ four_mice ∷ []

-- Five mice are there, and eight are sold.
stock_below_zero :
    stock_of (find (has_id 2) (create_order [] four_and_four initial_store).1.products)
    ≡ some (negsuc 2)
unfolding create_order lines_of take_stock
stock_below_zero = refl

too_many_in_one_line :
    create_order [] ((record { product_id = 2; quantity = 8 }) ∷ []) initial_store
    ≡ (err (insufficient_stock 2), initial_store)
unfolding create_order lines_of take_stock
too_many_in_one_line = refl

unknown_id : get_product 4 initial_store ≡ err (no_product 4)
unfolding get_product
unknown_id = refl

create_order-IsSale_example :
    ((e : StoreError) × (create_order [] four_and_four initial_store ≡ (err e, initial_store))
      × (any (is_refused initial_store.products) four_and_four ≡ true))
    ⊎ ((o : StoreOrder) × (t : StoreService) × (create_order [] four_and_four initial_store
          ≡ (ok o, t))
        × IsSale four_and_four initial_store o t)
create_order-IsSale_example = create_order-IsSale [] four_and_four initial_store
