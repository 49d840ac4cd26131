-- ===== src/Tests/RetryTests.antt =====
-- Attempts that lose twice.
use course_project.Base.{ltb, if◌then◌else◌, ℕ, ◌≡◌, ◌⊎◌, refl, false, none, some, Result, ok, err}
use course_project.Base.Text.{codes, text_eq}
use course_project.Retry.{Caught, rethrown, is_retryable, attempts, with_serialization_retry}
use course_project.Retry.Attempts.{Lost, with_serialization_retry-Lost}

abbrev serialization_failure : Caught
serialization_failure = record { driver_code = some (codes "40001"); code = none }

-- The first two attempts lose.
abbrev third_wins : ℕ → Result Caught ℕ
third_wins k = if ltb k 2 then err serialization_failure else ok 42

third_wins-Lost : Lost third_wins 0 2
unfolding text_eq
third_wins-Lost = ((serialization_failure, refl, refl), ((serialization_failure, refl, refl), tt))

retried_twice : with_serialization_retry third_wins none ≡ ok (42, 2)
unfolding with_serialization_retry attempts text_eq
retried_twice = refl

with_serialization_retry-Lost_example :
    ((a : ℕ) → third_wins 2 ≡ ok a → with_serialization_retry third_wins none ≡ ok (a, 2))
    × ((e : Caught)
        → third_wins 2 ≡ err e
        → (is_retryable e ≡ false) ⊎ (◌≡◌ {A = ℕ} 5 0)
        → with_serialization_retry third_wins none ≡ err (rethrown e))
with_serialization_retry-Lost_example =
    with_serialization_retry-Lost third_wins none 2 5 refl third_wins-Lost
