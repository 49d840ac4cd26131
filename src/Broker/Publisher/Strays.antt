-- ===== src/Broker/Publisher/Strays.antt =====
-- broker/publish-order-placed.ts: connections that outlive their channel.
use course_project.Base.{
  ℕ, zero, suc, ◌≡◌, refl, ap, true, false, none, some, List, [], ◌∷◌, length, ==_iff, arith, ◌==◌,
  subst,
}
use course_project.Broker.Publisher.{
  Service, idle, waiting, confirming, send, on_open, on_channel_lost, on_module_destroy, initial,
  confirm, start, opened, confirmed, channel_lost, destroy, Reach, here, later,
}

-- The service with nothing to do, whose channels the broker has closed.
abbrev stranded : ℕ → List ℕ → Service
stranded next strays = record {
  publisher = none;
  opening = none;
  disposed = false;
  ticking = false;
  sending = idle;
  queued = 0;
  opens = [];
  relays = 0;
  live = [];
  strays = strays;
  next = next;
}

-- The service while it opens connection `n`, and after the event was confirmed over it.
abbrev opening_one : ℕ → List ℕ → Service
opening_one n strays = record (stranded (suc n) strays) {
  sending = waiting n;
  opening = some n;
  opens = n ∷ [];
}

abbrev confirmed_one : ℕ → List ℕ → Service
confirmed_one n strays = record (stranded (suc n) strays) { publisher = some n; live = n ∷ [] }

-- One event is sent and confirmed over a new connection, whose channel is closed thereafter.
on_open-one :
    (n : ℕ) (strays : List ℕ)
    → on_open n (opening_one n strays) ≡ record (confirmed_one n strays) { sending = confirming n }
unfolding on_open
on_open-one n strays = rw ((==_iff n n).1 refl) refl

on_channel_lost-one :
    (n : ℕ) (strays : List ℕ)
    → on_channel_lost n (confirmed_one n strays) ≡ stranded (suc n) (n ∷ strays)
unfolding on_channel_lost
on_channel_lost-one n strays = rw ((==_iff n n).1 refl) refl

stranded-Reach :
    (s : Service) (n : ℕ) (strays : List ℕ)
    → Reach s (stranded n strays)
    → Reach s (stranded (suc n) (n ∷ strays))
unfolding send
stranded-Reach s n strays r =
    let itself : (n == n) ≡ true = (==_iff n n).1 refl in
    let asked : Reach s (opening_one n strays) =
      later (later r (confirm refl)) (start refl (omega arith)) in
    let sent : Reach s (record (confirmed_one n strays) { sending = confirming n }) =
      subst (Reach s) (on_open-one n strays) (later asked (opened n (ground (arith, itself)))) in
    subst (Reach s) (on_channel_lost-one n strays)
      (later (later sent (confirmed n refl refl)) (channel_lost n (ground (arith, itself))))

stranded-all :
    (m : ℕ) → (strays : List ℕ) × Reach initial (stranded (suc m) strays) × (length strays ≡ suc m)
unfolding on_open on_channel_lost
stranded-all zero = (0 ∷ [], later (later here (opened 0 refl)) (channel_lost 0 refl), refl)
stranded-all (suc m) =
    let (strays, r, many) = stranded-all m in
    (suc m ∷ strays, stranded-Reach initial (suc m) strays r, ap suc many)

-- If the broker closes the channel of every connection when it is idle, and no connection is lost,
-- then any number of connections is open when the service has been destroyed, and it has none of
-- them as its publisher.
pub Reach-strays :
    (n : ℕ)
    → (t : Service) × Reach initial t
      × (t.disposed ≡ true)
      × (t.publisher ≡ none)
      × (length t.strays ≡ n)
unfolding on_module_destroy
Reach-strays zero = (on_module_destroy initial, later here destroy, refl, refl, refl)
Reach-strays (suc m) =
    let (strays, r, many) = stranded-all m in
    (on_module_destroy (stranded (suc m) strays), later r destroy, refl, refl, many)
