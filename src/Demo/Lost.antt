-- ===== src/Demo/Lost.antt =====
-- demo-crash-write.ts: what the script counts.
use course_project.Base.{◌≡◌, refl, ap, true, none, some, List, [], ◌∷◌, ok, err, Result, arith}
use course_project.Base.Text.{Text, codes, trim}
use course_project.Checkout.Outcome.{claimed, checkout-rolls_back}
use course_project.Checkout.Run.{checkout}
use course_project.Checkout.Steps.{
  find_key, Clock, trimmed_key, CheckoutInput, CheckoutError, Placed, crashed,
}
use course_project.Db.Rows.{Db, IdempotencyKey}
use course_project.Demo.Cleaned.{IsSound}
use course_project.Demo.Crash.{
  crash_write_key, crash_input, WriteRows, on_written, write_ok, crash_write,
}
use course_project.Demo.Place.{
  one_line_trace, stocked-IsOffered, one_line-Succeeds, checkout-crashed,
}
use course_project.Demo.Posts.{IsReady}
use course_project.Demo.Prepared.{IsNew, prepare_demo-IsReady}
use course_project.Demo.{Fixture, NextIds, owned, measure, prepare_demo}
use course_project.Js.{Json, Host}

owned-free :
    (key : Text) (keys : List IdempotencyKey) → find_key key keys ≡ none → owned key keys ≡ []
unfolding owned
owned-free key [] free = refl
owned-free key (row ∷ keys) free = ground (arith, free, owned-free key keys)

crash_write_key-trimmed : trimmed_key (some crash_write_key) ≡ some crash_write_key
unfolding trim
crash_write_key-trimmed = refl

-- The rows of a run that goes as the script wants.
abbrev pub write_lost : WriteRows
write_lost = record {
  write_failed = 1;
  orders = 0;
  outbox = 0;
  published = 0;
  deliveries = 0;
  effect = 0;
}

module _ (host : Host) (clock : Clock) (fixture : Fixture) (db : Db) where
  abbrev input : CheckoutInput
  input = crash_input crash_write_key (codes "demo:crash-write") true fixture

  abbrev out : Result CheckoutError Placed × Db
  out = checkout host input clock db

  write-crashed :
      IsReady crash_write_key fixture db
      → (out.0 ≡ err crashed)
        × (out.1 ≡ record db { seq = out.1.seq })
        × (on_written out ≡ ok write_lost)
  unfolding measure
  write-crashed r =
      let start = claimed (some crash_write_key) input db in
      let t = one_line_trace fixture.buyer_id fixture.product_id 100 start in
      let s =
        one_line-Succeeds input fixture.product_id 100 start refl
          (stocked-IsOffered fixture.product_id db.products r.stocked) r.rich (omega arith)
          r.new_items in
      let crash =
        checkout-crashed host input clock crash_write_key db t refl refl crash_write_key-trimmed
          r.free s in
      (
        ap (λ o. o.0) crash,
        checkout-rolls_back host input clock db out.1 crashed
            (ap (λ (o : Result CheckoutError Placed × Db). (o.0, out.1)) crash),
        rw (crash, owned-free crash_write_key db.idempotency_keys r.free) refl,
      )

-- From any sound database, if new rows get positive and new ids: the checkout of the script throws
-- the crash behind its outbox row and leaves every table as the script has prepared it, without an
-- order or an outbox row more; and the script, which counts what its key has left, ends well.
pub crash_write-lost :
    (host : Host) (as_text : Json → Text) (next : NextIds) (clock : Clock) (db : Db)
    → IsSound db
    → IsNew next db
    → let (fixture, prepared) = prepare_demo as_text crash_write_key next db in
      let input = crash_input crash_write_key (codes "demo:crash-write") true fixture in
      let (r, after) = checkout host input clock prepared in
      (r ≡ err crashed)
      × (after ≡ record prepared { seq = after.seq })
      × (crash_write host as_text next clock db ≡ ok write_lost)
      × (write_ok write_lost ≡ true)
unfolding crash_write write_ok
crash_write-lost host as_text next clock db s n =
    let (failed, rolled_back, counted) =
      write-crashed host clock (prepare_demo as_text crash_write_key next db).0
        (prepare_demo as_text crash_write_key next db).1
        (prepare_demo-IsReady crash_write_key as_text next db s n) in
    (failed, rolled_back, counted, refl)
