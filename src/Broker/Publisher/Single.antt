-- ===== src/Broker/Publisher/Single.antt =====
-- broker/order-placed-publisher.service.ts: what each turn does to the connections.
use course_project.Base.{
  ==_iff, subst, ℕ, ◌≡◌, ◌==◌, refl, ap, sym, ◌∙◌, true, Option, none, some, List, [], ◌∷◌, any,
  arith, Bool-cases, inl, inr, ◌⊎◌,
}
use course_project.Broker.Publisher.{
  Sending, idle, waiting, confirming, closing, Service, forget, without, ensure_by, resume, give_up,
}

-- The connection that the head of the chain has in hand, or the one that the service keeps.
abbrev pub in_hand : Sending → Option ℕ → Option ℕ
in_hand (closing c) publisher = some c
in_hand (confirming c) publisher = some c
in_hand phase publisher = publisher

-- All connections of a list are the given one.
abbrev pub IsOnly : Option ℕ → List ℕ → Type 0
IsOnly none live = live ≡ []
IsOnly (some c) live = (live ≡ []) ⊎ (live ≡ c ∷ [])

abbrev pub held : Option ℕ → List ℕ
held none = []
held (some c) = c ∷ []

-- What the head of the chain does fits the fields.
abbrev pub Fits : Sending → Option ℕ → Option ℕ → Type 0
Fits idle opening publisher = (opening ≡ none) ⊎ (publisher ≡ none)
Fits (waiting c) opening publisher = (opening ≡ some c) × (publisher ≡ none)
Fits (confirming c) opening publisher =
    (opening ≡ none) × ((publisher ≡ none) ⊎ (publisher ≡ some c))
Fits (closing c) opening publisher = (opening ≡ none) × (publisher ≡ none)

abbrev pub Good : Sending → Option ℕ → Option ℕ → List ℕ → List ℕ → Type 0
Good sending opening publisher opens live =
    (opens ≡ held opening)
    × Fits sending opening publisher
    × IsOnly (in_hand sending publisher) live

kept :
    (c : ℕ) (opening : Option ℕ)
    → (opening ≡ none) ⊎ (◌≡◌ {A = Option ℕ} (some c) none)
    → opening ≡ none
kept c opening (inl e) = e
kept c opening (inr e) = absurd (ground (arith, e))

pub start-Good :
    (opening publisher : Option ℕ) (s : Service)
    → s.opening ≡ opening
    → s.publisher ≡ publisher
    → Good idle s.opening publisher s.opens s.live
    → let t = ensure_by publisher s in Good t.sending t.opening t.publisher t.opens t.live
start-Good opening (some c) s o u (a, f, h) = (a, (kept c s.opening f, inr u), h)
start-Good none none s o u (a, f, h) =
    rw o ((ap (λ l. s.next ∷ l) (a ∙ ap held o), (refl, u), subst (λ p. IsOnly p s.live) (sym u) h))
start-Good (some k) none s o u (a, f, h) =
    rw o (a ∙ ap held o, (refl, u), subst (λ p. IsOnly p s.live) (sym u) h)

only_one : (c k : ℕ) → any (λ d. d == c) (k ∷ []) ≡ true → k ≡ c
only_one c k h = ground (arith, h)

without_one : (c : ℕ) (live : List ℕ) → IsOnly (some c) live → without c live ≡ []
without_one c live (inl e) = rw e refl
without_one c live (inr e) = rw e (ground arith)

without-IsOnly :
    (c : ℕ) (kept : Option ℕ) (live : List ℕ) → IsOnly kept live → IsOnly kept (without c live)
without-IsOnly c none live e = rw e refl
without-IsOnly c (some d) live (inl e) = inl (rw e refl)
without-IsOnly c (some d) live (inr e) = rw e (ground arith)

pub opened-Good :
    (c : ℕ) (sending : Sending) (opening publisher : Option ℕ) (opens live : List ℕ)
    → any (λ d. d == c) opens ≡ true
    → Good sending opening publisher opens live
    → Good (resume c sending) none (some c) (without c opens) (c ∷ live)
opened-Good c sending none publisher opens live there (a, f, h) = absurd (ground (arith, there, a))
opened-Good c idle (some k) publisher opens live there (a, inl f, h) = absurd (ground (arith, f))
opened-Good c idle (some k) publisher opens live there (a, inr f, h) =
    (ground (arith, there, a), inl refl, inr (ap (λ l. c ∷ l) (subst (λ p. IsOnly p live) f h)))
opened-Good c (waiting d) (some k) publisher opens live there (a, f, h) =
    let same : c ≡ d = ground (arith, there, a, f.0) in
    let hit : (c == d) ≡ true = (==_iff c d).1 same in
    rw hit (
      ground (arith, there, a),
      (refl, inr refl),
      inr (ap (λ l. c ∷ l) (subst (λ p. IsOnly p live) f.1 h)),
    )
opened-Good c (confirming d) (some k) publisher opens live there (a, f, h) =
    absurd (ground (arith, f.0))
opened-Good c (closing d) (some k) publisher opens live there (a, f, h) =
    absurd (ground (arith, f.0))

pub open_failed-Good :
    (c : ℕ) (sending : Sending) (opening publisher : Option ℕ) (opens live : List ℕ)
    → any (λ d. d == c) opens ≡ true
    → Good sending opening publisher opens live
    → Good (give_up c sending) none publisher (without c opens) live
open_failed-Good c sending none publisher opens live there (a, f, h) =
    absurd (ground (arith, there, a))
open_failed-Good c idle (some k) publisher opens live there (a, f, h) =
    (ground (arith, there, a), inl refl, h)
open_failed-Good c (waiting d) (some k) publisher opens live there (a, f, h) =
    let same : c ≡ d = ground (arith, there, a, f.0) in
    let hit : (c == d) ≡ true = (==_iff c d).1 same in
    rw hit (ground (arith, there, a), inl refl, h)
open_failed-Good c (confirming d) (some k) publisher opens live there (a, f, h) =
    absurd (ground (arith, f.0))
open_failed-Good c (closing d) (some k) publisher opens live there (a, f, h) =
    absurd (ground (arith, f.0))

pub confirmed-Good :
    (c : ℕ) (opening publisher : Option ℕ) (opens live : List ℕ)
    → publisher ≡ some c
    → Good (confirming c) opening publisher opens live
    → Good idle opening publisher opens live
confirmed-Good c opening publisher opens live e (a, f, h) =
    (a, inl f.0, subst (λ p. IsOnly p live) (sym e) h)

forget-Fits :
    (c : ℕ) (publisher : Option ℕ)
    → (publisher ≡ none) ⊎ (publisher ≡ some c)
    → forget c publisher ≡ none
forget-Fits c none h = refl
forget-Fits c (some d) h = ground (arith, h)

pub refused-Good :
    (c : ℕ) (opening publisher : Option ℕ) (opens live : List ℕ)
    → Good (confirming c) opening publisher opens live
    → Good (closing c) opening (forget c publisher) opens live
refused-Good c opening publisher opens live (a, f, h) = (a, (f.0, forget-Fits c publisher f.1), h)

pub closed-Good :
    (c : ℕ) (opening publisher : Option ℕ) (opens live : List ℕ)
    → Good (closing c) opening publisher opens live
    → Good idle opening publisher opens (without c live)
closed-Good c opening publisher opens live (a, f, h) =
    (a, inl f.0, subst (λ p. IsOnly p (without c live)) (sym f.1) (without_one c live h))

-- Dropping a connection may only clear the service's own.
forget-cases :
    (c : ℕ) (publisher : Option ℕ) (live : List ℕ)
    → IsOnly publisher live
    → IsOnly (forget c publisher) (without c live)
forget-cases c none live h = without-IsOnly c none live h
forget-cases c (some d) live h = elim (Bool-cases (d == c)) [
  | inl same ↦
      rw same (without_one c live (subst (λ e. IsOnly (some e) live) ((==_iff d c).0 same) h))
  | inr other ↦ rw other (without-IsOnly c (some d) live h)
]

keeps_none :
    (c : ℕ) (opening publisher : Option ℕ)
    → (opening ≡ none) ⊎ (publisher ≡ none)
    → (opening ≡ none) ⊎ (forget c publisher ≡ none)
keeps_none c opening publisher (inl e) = inl e
keeps_none c opening publisher (inr e) = inr (ap (forget c) e)

keeps_or :
    (c d : ℕ) (publisher : Option ℕ)
    → (publisher ≡ none) ⊎ (publisher ≡ some d)
    → (forget c publisher ≡ none) ⊎ (forget c publisher ≡ some d)
keeps_or c d none h = inl refl
keeps_or c d (some e) h = elim (Bool-cases (e == c)) [
  | inl same ↦ inl (rw same refl)
  | inr other ↦ rw other h
]

pub dropped-Good :
    (c : ℕ) (sending : Sending) (opening publisher : Option ℕ) (opens live : List ℕ)
    → Good sending opening publisher opens live
    → Good sending opening (forget c publisher) opens (without c live)
dropped-Good c idle opening publisher opens live (a, f, h) =
    (a, keeps_none c opening publisher f, forget-cases c publisher live h)
dropped-Good c (waiting d) opening publisher opens live (a, f, h) =
    (a, (f.0, ap (forget c) f.1), forget-cases c publisher live h)
dropped-Good c (confirming d) opening publisher opens live (a, f, h) =
    (a, (f.0, keeps_or c d publisher f.1), without-IsOnly c (some d) live h)
dropped-Good c (closing d) opening publisher opens live (a, f, h) =
    (a, (f.0, ap (forget c) f.1), without-IsOnly c (some d) live h)
