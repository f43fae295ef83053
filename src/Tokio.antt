-- ===== src/Tokio.antt =====
-- edgedb-tokio/src/options.rs: when a failed transaction is tried again.
use edgedb_rust.Base.{ℕ, Bool, true, false, Option, none, some, if◌then◌else◌}
use edgedb_rust.Errors.{is_superclass_of, transaction_conflict_error, client_error}
pub mod Transaction
pub mod Transcript
pub mod Attempts
mod Tests

pub data RetryCondition : Type 0 where
  transaction_conflict network_error : RetryCondition

-- A duration is a number of milliseconds.
pub record RetryRule : Type 0 where
  pub attempts : ℕ
  pub backoff : ℕ → ℕ

-- `RetryOptionsInner`; its map is a function here, as its conditions are two.
pub record RetryOptions : Type 0 where
  pub default_rule : RetryRule
  pub overrides : RetryCondition → Option RetryRule

unfoldable pub equal_conditions : RetryCondition → RetryCondition → Bool
equal_conditions RetryCondition.transaction_conflict RetryCondition.transaction_conflict = true
equal_conditions RetryCondition.network_error RetryCondition.network_error = true
equal_conditions _ _ = false

-- `RetryOptions::new`, which forgets the options that it is called on.
unfoldable pub new : RetryOptions → (attempts : ℕ) → (ℕ → ℕ) → RetryOptions
new options attempts backoff = record {
  default_rule = record { attempts = attempts; backoff = backoff };
  overrides = λ c. none;
}

unfoldable pub with_rule : RetryOptions → RetryCondition → (attempts : ℕ) → (ℕ → ℕ) → RetryOptions
unfolding equal_conditions
with_rule options condition attempts backoff = record {
  default_rule = options.default_rule;
  overrides = λ c.
      if equal_conditions condition c
      then some (record { attempts = attempts; backoff = backoff })
      else options.overrides c;
}

unfoldable pub unwrap_or : RetryRule → Option RetryRule → RetryRule
unwrap_or rule none = rule
unwrap_or rule (some r) = r

-- `RetryOptions::get_rule`, for an error with this code.
unfoldable pub get_rule : RetryOptions → (code : ℕ) → RetryRule
unfolding is_superclass_of unwrap_or
get_rule options code =
    if is_superclass_of transaction_conflict_error code
    then unwrap_or options.default_rule (options.overrides RetryCondition.transaction_conflict)
    else if is_superclass_of client_error code
    then unwrap_or options.default_rule (options.overrides RetryCondition.network_error)
    else options.default_rule
