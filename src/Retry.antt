-- ===== src/Retry.antt =====
-- retry.ts: a call is tried again when its transaction lost to another one.
pub mod Attempts
use course_project.Base.{
  ℕ, zero, suc, ◌==◌, Bool, true, false, not, ◌||◌, Option, none, some, Result, ok, err,
  if◌then◌else◌,
}
use course_project.Base.Text.{Text, codes, text_eq}

-- What `fn` throws, as far as the loop reads it: `err.driverError.code` and `err.code`.
pub record Caught : Type 0 where
  pub driver_code : Option Text
  pub code : Option Text

-- What the loop throws: the last error, or `undefined` if there was no attempt.
pub data RetryError : Type 0 where
  rethrown : Caught → RetryError
  undefined : RetryError

-- `e.driverError?.code ?? e.code`
abbrev pub pg_error_code : Caught → Option Text
pg_error_code e = elim e.driver_code [ some c ↦ some c | none ↦ e.code ]

abbrev pub is_retryable : Caught → Bool
is_retryable e = elim (pg_error_code e) [
  | none ↦ false
  | some c ↦ text_eq c (codes "40001") || text_eq c (codes "40P01")
]

abbrev pub default_attempts : ℕ
default_attempts = 8

abbrev pub max_attempts_of : Option ℕ → ℕ
max_attempts_of none = default_attempts
max_attempts_of (some n) = n

module _ {ℓ} {A : Type ℓ} (fn : ℕ → Result Caught A) where
  -- The loop with `left` attempts to go, `retries` behind it; `fn k` is the outcome of the attempt
  -- that has k before it.
  unfoldable pub attempts : ℕ → ℕ → Result RetryError (A × ℕ)
  attempts zero retries = err undefined
  attempts (suc left) retries = elim (fn retries) [
    | ok a ↦ ok (a, retries)
    | err e ↦
        let again = attempts left (suc retries) in
        if not (is_retryable e) || left == 0 then err (rethrown e) else again
  ]

  unfoldable pub with_serialization_retry : Option ℕ → Result RetryError (A × ℕ)
  with_serialization_retry max = attempts (max_attempts_of max) 0
