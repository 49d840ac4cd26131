-- ===== src/Tests/DemoTests.antt =====
-- The demo of the outbox on the shop of the other tests, after an earlier run with its key.
use course_project.Base.{◌≡◌, refl, true, false, none, [], ◌∷◌, ok, err, if◌then◌else◌, arith, Bool}
use course_project.Base.Text.{Text, codes, text_eq}
use course_project.Checkout.Run.{checkout}
use course_project.Checkout.Steps.{crashed}
use course_project.Broker.Event.{OrderPlacedEvent}
use course_project.Broker.Effects.Once.{IsExact}
use course_project.Db.Rows.{Db}
use course_project.Demo.Cleaned.{IsSound}
use course_project.Demo.Counts.{all_once}
use course_project.Broker.Effects.{is_processed}
use course_project.Demo.Crash.{
  crash_write_key, crash_input, crash_write, write_ok, crash_relay, relay_ok,
}
use course_project.Demo.Crashes.{sent_twice, crash_relay-once}
use course_project.Demo.Lost.{write_lost, crash_write-lost}
use course_project.Demo.Duplicate.{duplicate_event, timed_out, duplicate_ok, demo_duplicate}
use course_project.Demo.Duplicate.Rerun.{skipped_once, demo_duplicate-rerun}
use course_project.Demo.Flow.{demo_key, demo_main, demo_ok}
use course_project.Demo.Prepared.{IsNew, demo_main-all_once}
use course_project.Demo.{NextIds, owned, prepare_demo}
use course_project.Js.{Json, str}
use course_project.Tests.Fixtures.{host, clock, shop}

abbrev next : NextIds
next = record { seller = 11; buyer = 12; product = 13 }

abbrev as_text : Json → Text
as_text (str t) = t
as_text _ = []

abbrev confirms : OrderPlacedEvent → Bool
confirms e = true

-- A key that no order is bound to yet.
abbrev used_shop : Db
used_shop = record shop {
  idempotency_keys = (record { key = demo_key; fingerprint = []; order_id = none }) ∷ [];
}

used_shop-IsExact : IsExact used_shop
used_shop-IsExact = record { mirrored = λ id. refl; once = λ id. omega arith }

used_shop-IsSound : IsSound used_shop
used_shop-IsSound = record {
  new_orders = tt;
  new_items = tt;
  new_outbox = tt;
  new_delivery = refl;
  new_message = refl;
  exact = used_shop-IsExact;
  order_id = omega arith;
}

used_shop-IsNew : IsNew next used_shop
used_shop-IsNew = record {
  seller_id = omega arith;
  buyer_id = omega arith;
  users = (omega arith, tt);
  products = ((λ h. ground (arith, h)), tt);
}

nothing_owned : owned demo_key used_shop.idempotency_keys ≡ []
unfolding owned text_eq
nothing_owned = refl

demo_main-all_once_example :
    (demo_main host confirms as_text next 5 9 clock clock used_shop ≡ ok all_once)
    × (demo_ok all_once ≡ true)
demo_main-all_once_example =
    demo_main-all_once host confirms as_text next 5 9 clock clock used_shop (λ e. refl)
      (λ n h. ground (arith, h)) (λ e. refl) (omega arith) used_shop-IsSound used_shop-IsNew

crash_write-lost_example :
    let (fixture, prepared) = prepare_demo as_text crash_write_key next used_shop in
    let input = crash_input crash_write_key (codes "demo:crash-write") true fixture in
    let (r, after) = checkout host input clock prepared in
    (r ≡ err crashed)
    × (after ≡ record prepared { seq = after.seq })
    × (crash_write host as_text next clock used_shop ≡ ok write_lost)
    × (write_ok write_lost ≡ true)
crash_write-lost_example =
    crash_write-lost host as_text next clock used_shop used_shop-IsSound used_shop-IsNew

crash_relay-once_example :
    (crash_relay host confirms as_text next clock 200 300 used_shop ≡ ok sent_twice)
    × (relay_ok sent_twice ≡ true)
crash_relay-once_example =
    crash_relay-once host confirms as_text next clock 200 300 used_shop (λ e. refl)
      (λ n h. ground (arith, h)) (λ e. refl) used_shop-IsSound used_shop-IsNew

duplicate_event-new : is_processed duplicate_event.event_id used_shop.processed_messages ≡ false
duplicate_event-new = refl

demo_duplicate-rerun_example :
    ((demo_duplicate host used_shop).0 ≡ (
      if is_processed duplicate_event.event_id used_shop.processed_messages
      then err timed_out
      else ok skipped_once))
    × (duplicate_ok skipped_once ≡ true)
    × ((demo_duplicate host (demo_duplicate host used_shop).1).0 ≡ err timed_out)
demo_duplicate-rerun_example = demo_duplicate-rerun host used_shop refl
