-- ===== src/Broker/Publisher/Reached.antt =====
-- broker/order-placed-publisher.service.ts: one connection and one run of the relay at a time.
use course_project.Base.{
  ℕ, ◌+◌, ◌-◌, ◌≤◌, ◌≡◌, refl, ap, sym, subst, ◌∙◌, true, false, Option, none, some, List, length,
  if◌then◌else◌, arith, Bool-cases, inl, inr, ◌⊎◌,
}
use course_project.Broker.Publisher.Single.{
  in_hand, IsOnly, held, Good, start-Good, opened-Good, open_failed-Good, confirmed-Good,
  refused-Good, closed-Good, dropped-Good,
}
use course_project.Broker.Publisher.{
  Sending, idle, waiting, confirming, closing, Service, open_by, ensure_by, send, on_open,
  on_open_error, on_refused, on_closed, on_drop, on_channel_lost, on_module_destroy, initial, Step,
  confirm, start, opened, open_failed, confirmed, refused, closed, dropped, channel_lost, tick,
  tick_end, destroy, Reach, here, later,
}

abbrev pub Holds : Service → Type 0
Holds s = Good s.sending s.opening s.publisher s.opens s.live

-- As long as the service runs, its connections are in order.
abbrev pub Runs : Service → Type 0
Runs s = s.disposed ≡ false → Holds s

by_phase :
    (s : Service) (p : Sending)
    → s.sending ≡ p
    → Holds s
    → Good p s.opening s.publisher s.opens s.live
by_phase s p e h = subst (λ q. Good q s.opening s.publisher s.opens s.live) e h

open_by-keeps :
    (opening : Option ℕ) (s : Service)
    → ((open_by opening s).disposed ≡ s.disposed)
      × (s.relays ≡ (if s.ticking then 1 else 0)
          → (open_by opening s).relays ≡ (if (open_by opening s).ticking then 1 else 0))
open_by-keeps none s = (refl, λ h. h)
open_by-keeps (some c) s = (refl, λ h. h)

ensure_by-keeps :
    (publisher : Option ℕ) (s : Service)
    → ((ensure_by publisher s).disposed ≡ s.disposed)
      × (s.relays ≡ (if s.ticking then 1 else 0)
          → (ensure_by publisher s).relays ≡ (if (ensure_by publisher s).ticking then 1 else 0))
ensure_by-keeps none s = open_by-keeps s.opening s
ensure_by-keeps (some c) s = (refl, λ h. h)

Step-Runs : (s t : Service) → Step s t → Runs s → Runs t
unfolding send on_open on_open_error on_refused on_closed on_drop on_channel_lost on_module_destroy
Step-Runs s _ (confirm running) h r = h r
Step-Runs s _ (start e some_job) h r =
    let job = record s { queued = s.queued - 1 } in
    start-Good s.opening s.publisher job refl refl
      (by_phase s idle e (h (sym (ensure_by-keeps s.publisher job).0 ∙ r)))
Step-Runs s _ (opened c there) h r =
    opened-Good c s.sending s.opening s.publisher s.opens s.live there (h r)
Step-Runs s _ (open_failed c there) h r =
    open_failed-Good c s.sending s.opening s.publisher s.opens s.live there (h r)
Step-Runs s _ (confirmed c e same) h r =
    confirmed-Good c s.opening s.publisher s.opens s.live same (by_phase s (confirming c) e (h r))
Step-Runs s _ (refused c e) h r =
    refused-Good c s.opening s.publisher s.opens s.live (by_phase s (confirming c) e (h r))
Step-Runs s _ (closed c e) h r =
    closed-Good c s.opening s.publisher s.opens s.live (by_phase s (closing c) e (h r))
Step-Runs s _ (dropped c) h r = dropped-Good c s.sending s.opening s.publisher s.opens s.live (h r)
Step-Runs s _ (channel_lost c there) h r =
    dropped-Good c s.sending s.opening s.publisher s.opens s.live (h r)
Step-Runs s _ (tick quiet running) h r = h r
Step-Runs s _ (tick_end busy) h r = h r
Step-Runs s _ destroy h r = absurd (ground (arith, r))

-- `ticking` says whether the relay runs.
abbrev pub Ticks : Service → Type 0
Ticks s = s.relays ≡ (if s.ticking then 1 else 0)

Step-Ticks : (s t : Service) → Step s t → Ticks s → Ticks t
unfolding send on_open on_open_error on_refused on_closed on_drop on_channel_lost on_module_destroy
Step-Ticks s _ (confirm running) h = h
Step-Ticks s _ (start e some_job) h =
    (ensure_by-keeps s.publisher (record s { queued = s.queued - 1 })).1 h
Step-Ticks s _ (opened c there) h = h
Step-Ticks s _ (open_failed c there) h = h
Step-Ticks s _ (confirmed c e same) h = h
Step-Ticks s _ (refused c e) h = h
Step-Ticks s _ (closed c e) h = h
Step-Ticks s _ (dropped c) h = h
Step-Ticks s _ (channel_lost c there) h = h
Step-Ticks s _ (tick quiet running) h = ground (arith, h, quiet)
Step-Ticks s _ (tick_end busy) h = ground (arith, h, busy)
Step-Ticks s _ destroy h = h

Reach-Runs : (s t : Service) → Reach s t → Runs s → Runs t
Reach-Runs s _ here h = h
Reach-Runs s u (later {t} r step) h = Step-Runs t u step (Reach-Runs s t r h)

Reach-Ticks : (s t : Service) → Reach s t → Ticks s → Ticks t
Reach-Ticks s _ here h = h
Reach-Ticks s u (later {t} r step) h = Step-Ticks t u step (Reach-Ticks s t r h)

IsOnly-length : (kept : Option ℕ) (live : List ℕ) → IsOnly kept live → length live ≤ 1
IsOnly-length none live h = omega (arith, ap length h)
IsOnly-length (some c) live (inl h) = omega (arith, ap length h)
IsOnly-length (some c) live (inr h) = omega (arith, ap length h)

Good-one :
    (sending : Sending) (opening publisher : Option ℕ) (opens live : List ℕ)
    → Good sending opening publisher opens live
    → length opens + length live ≤ 1
Good-one sending none publisher opens live (a, f, h) =
    omega (arith, ap length a, IsOnly-length (in_hand sending publisher) live h)
Good-one idle (some k) publisher opens live (a, inl f, h) = absurd (ground (arith, f))
Good-one idle (some k) publisher opens live (a, inr f, h) =
    omega (arith, ap length a, ap length (subst (λ p. IsOnly p live) f h))
Good-one (waiting c) (some k) publisher opens live (a, f, h) =
    omega (arith, ap length a, ap length (subst (λ p. IsOnly p live) f.1 h))
Good-one (confirming c) (some k) publisher opens live (a, f, h) = absurd (ground (arith, f.0))
Good-one (closing c) (some k) publisher opens live (a, f, h) = absurd (ground (arith, f.0))

-- From its start until it is destroyed, whatever its callers, the broker and the network do, the
-- service opens or has at most one connection whose channel is open, and a connection that is being
-- opened is the one that `opening` names; and at all times, at most one run of the relay is under
-- way.
pub Reach-one :
    (s : Service)
    → Reach initial s
    → ((s.disposed ≡ true) ⊎ (length s.opens + length s.live ≤ 1) × (s.opens ≡ held s.opening))
      × (s.relays ≤ 1)
Reach-one s r = (
  elim (Bool-cases s.disposed) [
    | inl gone ↦ inl gone
    | inr running ↦
        let good = Reach-Runs initial s r (λ _. (refl, inr refl, refl)) running in
        inr (Good-one s.sending s.opening s.publisher s.opens s.live good, good.0)
  ],
  ground (arith, Reach-Ticks initial s r refl),
)
