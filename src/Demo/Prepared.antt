-- ===== src/Demo/Prepared.antt =====
-- outbox/demo-support.ts: `prepareDemo` leaves a database that is ready for the demo, and the demo
-- that follows counts everything once.
use course_project.Base.{
  Bool-cases, inl, inr, any-append, find, filter, not, ℕ, ◌+◌, ◌≤◌, ◌<◌, ◌≡◌, ◌≢◌, refl, ap, sym,
  subst, ◌∙◌, ◌==◌, Bool, true, Option, none, some, List, [], ◌∷◌, any, filter, update, arith, All,
  All-append, All-imp, ok,
}
use course_project.Base.Text.{Text, text_eq}
use course_project.Broker.Event.{OrderPlacedEvent, event_json}
use course_project.Checkout.Steps.{find_key, payable, Clock}
use course_project.Db.Rows.{Db, User, Product, IdempotencyKey}
use course_project.Demo.Cleaned.{IsSound, delete_orders-IsSound, delete_orders-keeps}
use course_project.Demo.Counts.{all_once, demo_outbox-all_once}
use course_project.Demo.Flow.{demo_key, demo_main, demo_ok}
use course_project.Demo.Place.{IsStocked}
use course_project.Demo.Posts.{IsReady}
use course_project.Demo.{
  NextIds, owned, delete_orders, cleanup, prepare_demo, upsert_seller, seller_of, buyer_of,
  product_of, buyer_email, demo_balance,
}
use course_project.Idempotency.{key_ttl}
use course_project.Js.{Json, Host}

find_key-deleted :
    (key : Text) (keys : List IdempotencyKey)
    → find_key key (filter (λ (row : IdempotencyKey). not (text_eq row.key key)) keys) ≡ none
find_key-deleted key [] = refl
find_key-deleted key (row ∷ keys) = ground (arith, find_key-deleted key keys)

-- Ids of users are positive.
abbrev pub IsPositive : List User → Type 0
IsPositive = All λ (u : User). 1 ≤ u.id

All-find {ℓ κ} :
    {A : Type ℓ} (P : A → Type κ) (p : A → Bool) (xs : List A) (x : A)
    → All P xs
    → find p xs ≡ some x
    → P x
All-find P p [] x h e = absurd (ground (arith, e))
All-find P p (y ∷ xs) x h e = elim (Bool-cases (p y)) [
  | inl hit ↦ subst P (ground (arith, e, hit)) h.0
  | inr miss ↦ All-find P p xs x h.1 (ground (arith, e, miss))
]

seller_of-IsPositive :
    (next : ℕ) (users : List User) (found : Option User)
    → 1 ≤ next
    → IsPositive users
    → IsPositive (seller_of next users found).1
seller_of-IsPositive next users none fresh h =
    All-append (λ (u : User). 1 ≤ u.id) users _ h (fresh, tt)
seller_of-IsPositive next users (some u) fresh h = h

-- The buyer of the fixture can pay.
rich-update :
    (users : List User) (u : User)
    → find (λ (v : User). text_eq v.email buyer_email) users ≡ some u
    → any (payable u.id 100) (
        update
          (λ (v : User). text_eq v.email buyer_email)
          (λ v. record v { balance_cents = demo_balance })
          users)
      ≡ true
rich-update [] u h = absurd (ground (arith, h))
rich-update (v ∷ users) u h = elim (Bool-cases (text_eq v.email buyer_email)) [
  | inl hit ↦
      let same : v ≡ u = ground (arith, h, hit) in ground (arith, hit, ap (λ (w : User). w.id) same)
  | inr miss ↦ ground (arith, miss, rich-update users u (ground (arith, h, miss)))
]

any_id-update :
    (id : ℕ) (products : List Product)
    → any
        (λ (p : Product). p.id == id)
        (update (λ (q : Product). q.id == id) (λ q. record q { stock = 100; price = 100 }) products)
      ≡ any (λ (p : Product). p.id == id) products
any_id-update id [] = refl
any_id-update id (p ∷ products) = ground (arith, any_id-update id products)

update-IsPriced :
    (id : ℕ) (products : List Product)
    → All
        (λ (p : Product). p.id ≡ id → (p.price ≡ 100) × (p.stock ≡ 100))
        (update (λ (q : Product). q.id == id) (λ q. record q { stock = 100; price = 100 }) products)
update-IsPriced id [] = tt
update-IsPriced id (p ∷ products) = (
  elim (Bool-cases (p.id == id)) [
    | inl hit ↦ rw hit (λ e. (refl, refl))
    | inr miss ↦ rw miss (λ e. absurd (ground (arith, e, miss)))
  ],
  update-IsPriced id products,
)

-- The buyer of the fixture has an id and 100 cents.
buyer_of-rich :
    (next : ℕ) (users : List User) (found : Option User)
    → find (λ (u : User). text_eq u.email buyer_email) users ≡ found
    → 1 ≤ next
    → IsPositive users
    → (1 ≤ (buyer_of next users found).0)
      × (any (payable (buyer_of next users found).0 100) (buyer_of next users found).1 ≡ true)
buyer_of-rich next users none h fresh positive =
    (fresh, any-append (payable next 100) users _ ∙ ground arith)
buyer_of-rich next users (some u) h fresh positive =
    (All-find (λ (v : User). 1 ≤ v.id) _ users u positive h, rich-update users u h)

pub found-any :
    (p : Product → Bool) (products : List Product) (q : Product)
    → find p products ≡ some q
    → any (λ (r : Product). r.id == q.id) products ≡ true
found-any p [] q h = absurd (ground (arith, h))
found-any p (r ∷ products) q h = elim (Bool-cases (p r)) [
  | inl hit ↦
      let same : r ≡ q = ground (arith, h, hit) in ground (arith, ap (λ (x : Product). x.id) same)
  | inr miss ↦ ground (arith, found-any p products q (ground (arith, h, miss)))
]

product_of-IsStocked :
    (next seller_id : ℕ) (products : List Product) (p : Product → Bool) (found : Option Product)
    → find p products ≡ found
    → All (λ (q : Product). q.id ≢ next) products
    → IsStocked
        (product_of next seller_id products found).0
        (product_of next seller_id products found).1
product_of-IsStocked next seller_id products p none h fresh = (
  any-append (λ (q : Product). q.id == next) products _ ∙ ground arith,
  All-append (λ (q : Product). q.id ≡ next → (q.price ≡ 100) × (q.stock ≡ 100)) products _
      (All-imp (λ (q : Product). q.id ≢ next)
        (λ (q : Product). q.id ≡ next → (q.price ≡ 100) × (q.stock ≡ 100)) products
        (λ q other e. absurd (other e)) fresh)
      ((λ e. (refl, refl)), tt),
)
product_of-IsStocked next seller_id products p (some q) h fresh =
    (any_id-update q.id products ∙ found-any p products q h, update-IsPriced q.id products)

-- The identity columns give ids that are positive and new.
pub record IsNew (next : NextIds) (db : Db) : Type 0 where
  pub seller_id : 1 ≤ next.seller
  pub buyer_id : 1 ≤ next.buyer
  pub users : IsPositive db.users
  pub products : All (λ (p : Product). p.id ≢ next.product) db.products

module _ (key : Text) (as_text : Json → Text) (next : NextIds) where
  cleanup-IsSound : (db : Db) → IsSound db → IsSound (cleanup as_text key db)
  unfolding cleanup
  cleanup-IsSound db s =
      let d = delete_orders-IsSound as_text (owned key db.idempotency_keys) db s in
      record {
        new_orders = d.new_orders;
        new_items = d.new_items;
        new_outbox = d.new_outbox;
        new_delivery = d.new_delivery;
        new_message = d.new_message;
        exact = record { mirrored = d.exact.mirrored; once = d.exact.once };
        order_id = d.order_id;
      }

  pub prepare_demo-IsReady :
      (db : Db)
      → IsSound db
      → IsNew next db
      → IsReady key (prepare_demo as_text key next db).0 (prepare_demo as_text key next db).1
  unfolding prepare_demo cleanup
  prepare_demo-IsReady db s n =
      let ids = owned key db.idempotency_keys in
      let c = cleanup-IsSound db s in
      let (users, products) = delete_orders-keeps as_text ids db in
      let cleaned = delete_orders as_text ids db in
      let with_seller = (upsert_seller next.seller cleaned.users).1 in
      let positive =
        seller_of-IsPositive next.seller cleaned.users _ n.seller_id
          (subst IsPositive (sym users) n.users) in
      let (buyer_id, rich) = buyer_of-rich next.buyer with_seller _ refl n.buyer_id positive in
      record {
        free = find_key-deleted key cleaned.idempotency_keys;
        rich = rich;
        stocked =
            product_of-IsStocked next.product (upsert_seller next.seller cleaned.users).0
              cleaned.products _ _ refl
              (subst (All λ (p : Product). p.id ≢ next.product) (sym products) n.products);
        new_orders = c.new_orders;
        new_items = c.new_items;
        new_outbox = c.new_outbox;
        new_delivery = c.new_delivery;
        new_message = c.new_message;
        exact = record { mirrored = c.exact.mirrored; once = c.exact.once };
        order_id = c.order_id;
        buyer_id = buyer_id;
      }

-- From any sound database, the demo of the outbox ends well: after two requests with one key, one run
-- of the relay and one bounded consumer, there are one order, one outbox row, one published event, one
-- delivery, one effect and one processed message. The broker confirms every event, JSON.parse inverts
-- JSON.stringify on events, times are written as non-empty texts, new rows get positive and new ids,
-- and the second request comes before the key expires.
pub demo_main-all_once :
    (host : Host) (confirms : OrderPlacedEvent → Bool) (as_text : Json → Text) (next : NextIds)
    (t u : ℕ) (first second : Clock) (db : Db)
    → ((e : OrderPlacedEvent) → host.parse (host.stringify (event_json e)) ≡ some (event_json e))
    → ((n : ℕ) → host.to_iso n ≢ [])
    → ((e : OrderPlacedEvent) → confirms e ≡ true)
    → u < t + key_ttl
    → IsSound db
    → IsNew next db
    → (demo_main host confirms as_text next t u first second db ≡ ok all_once)
      × (demo_ok all_once ≡ true)
unfolding demo_main demo_ok
demo_main-all_once host confirms as_text next t u first second db codec iso agrees live s n = (
  demo_outbox-all_once host confirms (prepare_demo as_text demo_key next db).0 t u first second
      (prepare_demo as_text demo_key next db).1 codec iso agrees live
      (prepare_demo-IsReady demo_key as_text next db s n),
  refl,
)
