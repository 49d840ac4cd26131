-- ===== src/Tests/SeedTests.antt =====
-- The script on empty tables, and on the tables that it leaves.
use course_project.Base.{◌≡◌, refl, [], ◌++◌, ok, length}
use course_project.Base.Text.{text_eq}
use course_project.Checkout.Run.{insert_items}
use course_project.Seed.{Shop, seed, seed_user, seed_product, seed_order}
use course_project.Seed.Data.{sellers, buyers, catalog, seed_orders}
use course_project.Seed.Again.{seed-again}

abbrev empty : Shop
empty = record {
  users = record { rows = []; next = 1 };
  products = record { rows = []; next = 1 };
  orders = record { rows = []; next = 1; items = []; next_item = 1 };
}

abbrev filled : Shop
unfolding seed
filled = (seed (sellers ++ buyers) catalog seed_orders empty).1

filled_ok : seed (sellers ++ buyers) catalog seed_orders empty ≡ (ok tt, filled)
unfolding filled seed seed_user seed_product seed_order text_eq insert_items
filled_ok = refl

filled_orders : (length filled.orders.rows ≡ 10) × (length filled.orders.items ≡ 20)
unfolding filled seed seed_user seed_product seed_order text_eq insert_items
filled_orders = (refl, refl)

seed-again_example : seed (sellers ++ buyers) catalog seed_orders filled ≡ (ok tt, filled)
seed-again_example = seed-again (sellers ++ buyers) catalog seed_orders empty filled filled_ok
