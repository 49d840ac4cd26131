-- ===== src/Tests/Fixtures.antt =====
-- Data that the tests share.
use course_project.Base.{false, Option, none, some, [], ◌∷◌}
use course_project.Base.Text.{codes}
use course_project.Js.{Json, nan, Host}
use course_project.Broker.Event.{OrderPlacedEvent}
use course_project.Checkout.Consistency.{IsConsistent}
use course_project.Checkout.Conservation.{HasKeys}
use course_project.Db.Rows.{Db, User, Product, UserRole}
use course_project.Checkout.Steps.{CheckoutInput, Clock}

-- A host whose message bodies are JSON values or, as `none`, bytes that are no JSON.
abbrev pub host : Host
host = record {
  Body = Option Json;
  parse = λ b. b;
  stringify = λ v. some v;
  body_of_text = λ t. none;
  number_of_text = λ t. nan;
  number_of_items = λ xs. nan;
  to_iso = λ t. codes "2026-10-27T00:00:00.000Z";
  sha256 = λ v. [];
}

abbrev pub clock : Clock
clock = record { now = 100; process_now = 101; saved_created_at = some 100 }

abbrev pub widget : Product
widget = record {
  id = 7;
  seller_id = 1;
  name = codes "Widget";
  description = [];
  price = 100;
  stock = 3;
}

abbrev pub kateryna : User
kateryna = record {
  id = 2;
  email = codes "buyer-kateryna@example.com";
  role = UserRole.buyer;
  balance_cents = 1000;
}

abbrev pub shop : Db
shop = record {
  users = kateryna ∷ [];
  products = widget ∷ [];
  orders = [];
  order_items = [];
  jobs = [];
  outbox = [];
  idempotency_keys = [];
  processed_messages = [];
  order_placed_effects = [];
  order_placed_deliveries = [];
  order_status_events = [];
  seq = record { order = 1; order_item = 1; job = 1; outbox = 1; delivery = 1 };
}

abbrev pub two_widgets : CheckoutInput
two_widgets = record {
  buyer_id = 2;
  items = (record { product_id = 7; quantity = 2 }) ∷ [];
  idempotency_key = some (codes " k1 ");
  fingerprint = some (codes "f");
  crash_after_outbox = false;
}

-- Two lines for one product.
abbrev pub split_lines : CheckoutInput
split_lines = record two_widgets {
  items =
      (record { product_id = 7; quantity = 1 }) ∷ (record { product_id = 7; quantity = 1 }) ∷ [];
  idempotency_key = none;
}

abbrev pub event : OrderPlacedEvent
event = record {
  event_id = codes "order.placed:12";
  occurred_at = codes "2026-10-27T00:00:00.000Z";
  payload = record { order_id = 12; buyer_id = 2; total_cents = 200; status = codes "paid" };
}

pub shop-HasKeys : HasKeys shop
shop-HasKeys = record { products = (tt, tt); users = (tt, tt) }

pub shop-IsConsistent : IsConsistent shop
shop-IsConsistent = record {
  orders = record {
    keys = shop-HasKeys;
    distinct_orders = tt;
    fresh_orders = tt;
    fresh_items = tt;
    totals = tt;
  };
  named = tt;
}
