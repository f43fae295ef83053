-- ===== src/Tokio/Tests.antt =====
-- A transaction that meets a conflict and is tried again, and the theorem on it.
use edgedb_rust.Base.{
  ℕ, zero, suc, ◌≡◌, refl, true, false, [], ◌∷◌, none, some, Result, ok, err, arith,
}
use edgedb_rust.Errors.{Error, kinds, find_tags}
use edgedb_rust.Tokio.{RetryOptions, get_rule, unwrap_or}
use edgedb_rust.Tokio.Transaction.{commit, rollback, Env, transaction}
use edgedb_rust.Tokio.Transcript.{acquired, slept, ran, stated, logged, IsLimit, Finishes}
use edgedb_rust.Tokio.Attempts.{transaction-Finishes}

abbrev conflict : Error
conflict = record { code = 0x05030101; sources = [] }

-- The first attempt starts a transaction and meets a conflict, the second one returns 7.
abbrev env : Env ℕ ℕ ℕ
env = record {
  acquire = λ w. (ok 1, w);
  body = λ i conn w. (attempt i, some (record { conn = conn; started = true }), w);
  statement = λ s conn w. (ok tt, w);
  sleep = λ n w. suc w;
}
  where
    attempt : ℕ → Result Error ℕ
    attempt zero = err conflict
    attempt (suc i) = ok 7

abbrev options : RetryOptions
options = record { default_rule = record { attempts = 3; backoff = λ n. n }; overrides = λ c. none }

options-IsLimit : IsLimit 3 options
unfolding get_rule unwrap_or
options-IsLimit code = ground arith

second_attempt :
    transaction 4 (logged env) options 0 (0, [])
    ≡ some (
      ok 7,
      (
        1,
        acquired
            ∷ ran 0 false (some true)
            ∷ stated rollback true
            ∷ slept
            ∷ acquired
            ∷ ran 1 true (some true)
            ∷ stated commit true
            ∷ [],
      ),
    )
unfolding transaction logged get_rule unwrap_or kinds find_tags
second_attempt = refl

transaction-Finishes_example : Finishes 3 0 [] (transaction 4 (logged env) options 0 (0, []))
transaction-Finishes_example = transaction-Finishes env options 3 4 0 options-IsLimit (omega arith)
