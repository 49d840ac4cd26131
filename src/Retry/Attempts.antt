-- ===== src/Retry/Attempts.antt =====
-- retry.ts: the outcome of the loop is that of its first attempt that did not lose.
use course_project.Base.{
  ℕ, zero, suc, ◌+◌, ◌≡◌, refl, ◌⊎◌, inl, inr, ◌∙◌, true, false, Option, Result, ok, err, arith,
}
use course_project.Retry.{
  Caught, rethrown, is_retryable, max_attempts_of, attempts, with_serialization_retry,
}

module _ {ℓ} {A : Type ℓ} (fn : ℕ → Result Caught A) where
  -- The `n` attempts from `k` on throw errors that are tried again.
  abbrev pub Lost : ℕ → ℕ → Type ℓ
  Lost k zero = Unit
  Lost k (suc n) = ((e : Caught) × (fn k ≡ err e) × (is_retryable e ≡ true)) × Lost (suc k) n

  attempts_at : (i j k l : ℕ) → i ≡ j → k ≡ l → attempts fn i k ≡ attempts fn j l
  attempts_at i j k l left behind = cc

  -- The attempts that are lost do not decide the loop while one is left after them.
  attempts-Lost :
      (n left k : ℕ) → Lost k n → attempts fn (n + suc left) k ≡ attempts fn (suc left) (n + k)
  unfolding attempts
  attempts-Lost zero left k lost =
      attempts_at (0 + suc left) (suc left) k (0 + k) (omega arith) (omega arith)
  attempts-Lost (suc n) left k ((e, thrown, again), lost) =
      attempts_at (suc n + suc left) (suc (n + suc left)) k k (omega arith) refl
      ∙ retried
      ∙ attempts-Lost n left (suc k) lost
      ∙ attempts_at (suc left) (suc left) (n + suc k) (suc n + k) refl (omega arith)
    where
      retried : attempts fn (suc (n + suc left)) k ≡ attempts fn (n + suc left) (suc k)
      retried = ground (arith, thrown, again)

  -- After n lost attempts, fewer than the maximum, an attempt that returns ends the loop with its
  -- result and n retries; one that throws ends it with its error, if that is not to be tried again
  -- or if the attempt was the last.
  pub with_serialization_retry-Lost :
      (max : Option ℕ) (n left : ℕ)
      → max_attempts_of max ≡ n + suc left
      → Lost 0 n
      → ((a : A) → fn n ≡ ok a → with_serialization_retry fn max ≡ ok (a, n))
        × ((e : Caught)
            → fn n ≡ err e
            → (is_retryable e ≡ false) ⊎ (left ≡ 0)
            → with_serialization_retry fn max ≡ err (rethrown e))
  unfolding with_serialization_retry attempts
  with_serialization_retry-Lost max n left most lost = (
    λ a returned. ended ∙ ground (arith, returned),
    λ e thrown last. ended ∙ elim last [
      | inl hopeless ↦ ground (arith, thrown, hopeless)
      | inr none_left ↦ ground (arith, thrown, none_left)
    ],
  )
    where
      ended : attempts fn (max_attempts_of max) 0 ≡ attempts fn (suc left) n
      ended =
          attempts_at (max_attempts_of max) (n + suc left) 0 0 most refl
          ∙ attempts-Lost n left 0 lost
          ∙ attempts_at (suc left) (suc left) (n + 0) n refl (omega arith)
