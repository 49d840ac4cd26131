-- ===== src/Tests/IdempotencyTests.antt =====
-- Requests that repeat a key.
use course_project.Base.{
  List, ◌≢◌, ℕ, ◌+◌, ◌≡◌, refl, true, none, some, [], ◌∷◌, arith, filter, if◌then◌else◌,
}
use course_project.Base.Text.{Text, codes, text_eq, text_eq_iff}
use course_project.Idempotency.{
  key_ttl, in_flight, IdemRecord, still_in_flight, key_reuse, replayed, get, set, sweep, complete,
  handle, intercept, location,
}
use course_project.Idempotency.Records.{is_live}
use course_project.Idempotency.History.{
  World, after_request, request, returned, fresh, Reach, here, next, IsSpaced,
}
use course_project.Idempotency.Spaced.{Reach-IsSpaced, sweep-Reach}
use course_project.Idempotency.Replies.{Turn, after_turns, handle-complete, handle-started}
use course_project.Tests.Fixtures.{host}

abbrev id_of : ℕ → ℕ
id_of b = b

abbrev key : Text
key = codes "k1"

-- A start at 5, its return at 7, a replay, and a new start when the key has expired.
claimed : World ℕ
unfolding intercept handle get set sweep text_eq
claimed = after_request id_of host 5 true (some key) none fresh

abbrev answered : World ℕ
answered = record claimed {
  records = complete key [] (5 + key_ttl) (some 12) claimed.records;
  now = 7;
}

replay : (handle id_of 8 key [] answered.records).0 ≡ replayed (some 12) (some 12)
unfolding claimed complete handle get set sweep text_eq
replay = refl

abbrev renewed : World ℕ
renewed = after_request id_of host (5 + key_ttl) true (some key) none answered

renewed_starts : renewed.starts ≡ (key, 5 + key_ttl) ∷ (key, 5) ∷ []
unfolding claimed complete intercept handle get set sweep text_eq
renewed_starts = refl

renewed-Reach : Reach id_of host renewed
unfolding claimed intercept handle get set sweep text_eq
renewed-Reach =
    next
      (next (next here (request fresh 5 true (some key) none (omega arith)))
        (returned claimed 7 5 key [] (some 12) (omega arith) (omega arith) refl))
      (request answered (5 + key_ttl) true (some key) none (omega arith))

Reach-IsSpaced_example : IsSpaced renewed.starts
Reach-IsSpaced_example = Reach-IsSpaced id_of host renewed-Reach

sweep-Reach_example : sweep 9 renewed.records ≡ filter (is_live 9) renewed.records
sweep-Reach_example = sweep-Reach id_of host 9 renewed-Reach

other_key : codes "k2" ≢ key
unfolding text_eq
other_key e = absurd (ground (arith, (text_eq_iff (codes "k2") key).1 e))

-- Two retries, and the handler of another key returns.
abbrev meanwhile : List (Turn ℕ)
meanwhile =
    Turn.asked 6 key [] ∷ Turn.asked 7 key (codes "x") ∷ Turn.answered (codes "k2") [] 9 none ∷ []

handle-complete_example :
    (handle id_of 8 key [] (after_turns id_of meanwhile (complete key [] 10 (some 12) []))).0
    ≡ (if text_eq [] [] then replayed (some 12) (location id_of (some 12)) else key_reuse)
handle-complete_example =
    handle-complete id_of [] key [] [] 10 8 (some 12) meanwhile
      (omega arith, (omega arith, (other_key, tt))) (omega arith)

abbrev claim : IdemRecord ℕ
claim = record { state = in_flight; fingerprint = []; expires_at = 5 + key_ttl; body = none }

handle-started_example :
    (handle id_of 8 key [] (after_turns id_of meanwhile ((key, claim) ∷ []))).0
    ≡ (if text_eq [] [] then still_in_flight else key_reuse)
unfolding handle get set sweep
handle-started_example =
    handle-started id_of [] key [] [] 5 8 ((key, claim) ∷ []) meanwhile refl
      (omega arith, (omega arith, (other_key, tt))) (omega arith)

-- The other key is live, and this one expired at 3.
