-- ===== src/Tokio/Transaction.antt =====
-- edgedb-tokio/src/transaction.rs: the loop that runs a transaction until it is committed or fails
-- for good. The pool, the connections, the body and the clock belong to an environment with a state.
use edgedb_rust.Base.{
  ℕ, zero, suc, Bool, ◌&&◌, List, [], ◌∷◌, Option, none, some, Result, ok, err, panic, ltb,
  if◌then◌else◌,
}
use edgedb_rust.Errors.{Error, chain, tag_check, should_retry}
use edgedb_rust.Tokio.{RetryRule, RetryOptions, get_rule}

pub data Statement : Type 0 where
  commit rollback : Statement

-- `TransactionResult`
pub record TransactionResult (Conn : Type 0) : Type 0 where
  pub conn : Conn
  pub started : Bool

-- What the loop calls. The body may keep its `Transaction`, and then nothing comes back of it.
pub record Env (W Conn T : Type 0) : Type 0 where
  pub acquire : W → Result Error Conn × W
  pub body : (iteration : ℕ) → Conn → W → Result Error T × Option (TransactionResult Conn) × W
  pub statement : Statement → Conn → W → Result Error (Unit {0}) × W
  pub sleep : ℕ → W → W

-- The first error in a chain that has the tag, and whose rule allows one more attempt.
unfoldable pub retry_rule : RetryOptions → (iteration : ℕ) → List (Option ℕ) → Option RetryRule
unfolding tag_check get_rule
retry_rule options iteration [] = none
retry_rule options iteration (none ∷ es) = retry_rule options iteration es
retry_rule options iteration (some code ∷ es) =
    let rest = retry_rule options iteration es in
    let rule = get_rule options code in
    if tag_check code should_retry && ltb iteration rule.attempts then some rule else rest

-- `return Ok(val)`, behind a `?`.
unfoldable pub committed :
    {W T : Type 0} → T → Result Error (Unit {0}) × W → Option (Result Error T × W)
committed v (ok _, w) = some (ok v, w)
committed v (err e, w) = some (err e, w)
committed v (panic, w) = some (panic, w)

module _ {W Conn T : Type 0} where
  -- The statement that ends a transaction, if it was started.
  unfoldable pub end_with :
      Env W Conn T → Statement → TransactionResult Conn → W → Result Error (Unit {0}) × W
  end_with env s t w = if t.started then env.statement s t.conn w else (ok tt, w)

  -- The loop, for at most `fuel` attempts; `none` says that they were too few.
  unfoldable pub transaction :
      (fuel : ℕ) → Env W Conn T → RetryOptions → (iteration : ℕ) → W → Option (Result Error T × W)
  unfolding retry_rule end_with committed chain
  transaction zero env options iteration w = none
  transaction (suc fuel) env options iteration w =
      let (acquired, w1) = env.acquire w in
      elim acquired [
        | err e ↦ some (err e, w1)
        | panic ↦ some (panic, w1)
        | ok conn ↦
            let (result, returned, w2) = env.body iteration conn w1 in
            elim result [
              | panic ↦ some (panic, w2)
              | ok v ↦ elim returned [
                | none ↦ some (panic, w2)
                | some t ↦ committed v (end_with env commit t w2)
              ]
              | err e ↦ elim returned [
                | none ↦ some (panic, w2)
                | some t ↦
                    let (ended, w3) = end_with env rollback t w2 in
                    elim ended [
                      | err x ↦ some (err x, w3)
                      | panic ↦ some (panic, w3)
                      | ok _ ↦ elim (retry_rule options iteration (chain e)) [
                        | none ↦ some (err e, w3)
                        | some rule ↦
                            transaction fuel env options (suc iteration)
                              (env.sleep (rule.backoff (suc iteration)) w3)
                      ]
                    ]
              ]
            ]
      ]
