-- ===== src/Tokio/Attempts.antt =====
-- The loop of transaction.rs, one attempt after the other.
use edgedb_rust.Base.{
  ℕ, zero, suc, ◌+◌, ◌<◌, ◌≤◌, ◌≡◌, refl, sym, ap, ◌∙◌, Bool, true, false, Bool-cases, inl, inr,
  ◌&&◌, List, [], ◌∷◌, ◌++◌, append_assoc, append-nil, Option, none, some, Result, ok, err, panic,
  ltb, ltb→lt, and_both, arith,
}
use edgedb_rust.Errors.{Error, chain, tag_check, should_retry}
use edgedb_rust.Tokio.{RetryRule, RetryOptions, get_rule}
use edgedb_rust.Tokio.Transaction.{
  Statement, commit, rollback, TransactionResult, Env, retry_rule, end_with, committed, transaction,
}
use edgedb_rust.Tokio.Transcript.{
  Event, acquired, slept, ran, stated, logged, is_ok, has_started, ended_by, not_rolled_back,
  not_acquired, succeeded, not_committed, failed, retried, panicked, IsLimit, Finishes,
}

retry_rule-lt :
    (limit : ℕ) (options : RetryOptions) (i : ℕ) (es : List (Option ℕ)) (rule : RetryRule)
    → IsLimit limit options
    → retry_rule options i es ≡ some rule
    → i < limit
unfolding retry_rule
retry_rule-lt limit options i [] rule h e = absurd (none-ne-some e)
  where
    none-ne-some : ¬ (◌≡◌ {A = Option RetryRule} none (some rule))
    none-ne-some x = cc
retry_rule-lt limit options i (none ∷ es) rule h e = retry_rule-lt limit options i es rule h e
retry_rule-lt limit options i (some code ∷ es) rule h e =
    elim (Bool-cases (tag_check code should_retry && ltb i (get_rule options code).attempts)) [
      | inl again ↦
          let (_, more) = and_both (tag_check code should_retry) _ again in
          omega (arith, ltb→lt _ _ more, h code)
      | inr other ↦ retry_rule-lt limit options i es rule h (rw other at e)
    ]

module _ {W : Type 0} where
  -- What `end_with` adds to the calls.
  abbrev Settled :
      List Event → Statement → Bool → Result Error (Unit {0}) × (W × List Event) → Type 0
  Settled log x started (ok _, (w, log')) = log' ≡ log ++ ended_by x started
  Settled log x started (err e, (w, log')) =
      (started ≡ true) × (log' ≡ log ++ (stated x false ∷ []))
  Settled log x started (panic, (w, log')) =
      (started ≡ true) × (log' ≡ log ++ (stated x false ∷ []))

  Settled-stated :
      (log : List Event) (x : Statement) (r : Result Error (Unit {0})) (w : W)
      → Settled log x true (r, (w, log ++ (stated x (is_ok r) ∷ [])))
  unfolding ended_by is_ok
  Settled-stated log x (ok _) w = refl
  Settled-stated log x (err e) w = (refl, refl)
  Settled-stated log x panic w = (refl, refl)

  Settled-end_with :
      {Conn T : Type 0} (env : Env W Conn T) (x : Statement) (conn : Conn) (started : Bool) (w : W)
      (log : List Event)
      → Settled log x started
          (end_with (logged env) x (record { conn = conn; started = started }) (w, log))
  unfolding end_with logged ended_by
  Settled-end_with env x conn true w log = Settled-stated log x _ _
  Settled-end_with env x conn false w log = sym (append-nil log)

  Settled-moved :
      (log log' : List Event) (x : Statement) (started : Bool)
      (p : Result Error (Unit {0}) × (W × List Event))
      → log ≡ log'
      → Settled log x started p
      → Settled log' x started p
  Settled-moved log log' x started p e h = rw (e) at h

-- Two calls and more behind a list of calls.
calls :
    (log more : List Event) (a b : Event)
    → ((log ++ (a ∷ [])) ++ (b ∷ [])) ++ more ≡ log ++ (a ∷ b ∷ more)
calls log more a b =
    append_assoc (log ++ (a ∷ [])) (b ∷ []) more ∙ append_assoc log (a ∷ []) (b ∷ more)

-- The calls of an attempt whose body has come back.
abbrev so_far : ℕ → Bool → Option Bool → List Event → List Event
so_far i b started log = (log ++ (acquired ∷ [])) ++ (ran i b started ∷ [])

module _ {W T : Type 0} (limit i : ℕ) (log : List Event) where
  Finishes-committed :
      (v : T) (started : Bool) (p : Result Error (Unit {0}) × (W × List Event))
      → Settled (so_far i true (some started) log) commit started p
      → Finishes limit i log (committed v p)
  unfolding committed
  Finishes-committed v started (ok _, (w, log')) h = (
    acquired ∷ ran i true (some started) ∷ ended_by commit started,
    h ∙ calls log _ acquired (ran i true (some started)),
    succeeded v started,
  )
  Finishes-committed v started (err e, (w, log')) (began, h) = (
    acquired ∷ ran i true (some true) ∷ stated commit false ∷ [],
    rw (began) at h ∙ calls log _ acquired (ran i true (some true)),
    not_committed e,
  )
  Finishes-committed v started (panic, (w, log')) (began, h) = (
    acquired ∷ ran i true (some true) ∷ stated commit false ∷ [],
    rw (began) at h ∙ calls log _ acquired (ran i true (some true)),
    panicked _,
  )

  -- Behind a rollback: the error is returned, or there is one more attempt.
  Finishes-retry :
      (e : Error) (started : Bool) (w : W) (log' : List Event) (o : Option RetryRule)
      (again : RetryRule → Option (Result Error T × (W × List Event)))
      → log' ≡ so_far i false (some started) log ++ ended_by rollback started
      → ((rule : RetryRule) → o ≡ some rule → i < limit)
      → ((rule : RetryRule)
          → i < limit
          → Finishes limit (suc i) (log' ++ (slept ∷ [])) (again rule))
      → Finishes limit i log (elim o [ none ↦ some (err e, (w, log')) | some rule ↦ again rule ])
  Finishes-retry e started w log' none again h k l = (
    acquired ∷ ran i false (some started) ∷ ended_by rollback started,
    h ∙ calls log _ acquired (ran i false (some started)),
    failed e started,
  )
  Finishes-retry e started w log' (some rule) again h k l =
      behind (again rule) (l rule (k rule refl))
    where
      behind :
          (o : Option (Result Error T × (W × List Event)))
          → Finishes limit (suc i) (log' ++ (slept ∷ [])) o
          → Finishes limit i log o
      behind none x = x
      behind (some (r, (w', log''))) (more, q, t) = (
        acquired ∷ ran i false (some started) ∷ ended_by rollback started ++ (slept ∷ more),
        q
            ∙ append_assoc log' (slept ∷ []) more
            ∙ ap (λ x. x ++ (slept ∷ more)) h
            ∙ append_assoc (so_far i false (some started) log) (ended_by rollback started)
                (slept ∷ more)
            ∙ calls log _ acquired (ran i false (some started)),
        retried started (k rule refl) t,
      )

  -- Behind the attempt to roll back.
  Finishes-ended :
      (e : Error) (started : Bool) (p : Result Error (Unit {0}) × (W × List Event))
      (o : Option RetryRule)
      (again : RetryRule → W × List Event → Option (Result Error T × (W × List Event)))
      → Settled (so_far i false (some started) log) rollback started p
      → ((rule : RetryRule) → o ≡ some rule → i < limit)
      → ((rule : RetryRule) (w : W) (log' : List Event)
          → i < limit
          → Finishes limit (suc i) (log' ++ (slept ∷ [])) (again rule (w, log')))
      → Finishes limit i log (elim p.0 [
        | err x ↦ some (err x, p.1)
        | panic ↦ some (panic, p.1)
        | ok _ ↦ elim o [ none ↦ some (err e, p.1) | some rule ↦ again rule p.1 ]
      ])
  Finishes-ended e started (err x, (w, log')) o again (began, h) k l = (
    acquired ∷ ran i false (some true) ∷ stated rollback false ∷ [],
    rw (began) at h ∙ calls log _ acquired (ran i false (some true)),
    not_rolled_back x,
  )
  Finishes-ended e started (panic, (w, log')) o again (began, h) k l = (
    acquired ∷ ran i false (some true) ∷ stated rollback false ∷ [],
    rw (began) at h ∙ calls log _ acquired (ran i false (some true)),
    panicked _,
  )
  Finishes-ended e started (ok _, (w, log')) o again h k l =
      Finishes-retry e started w log' o (λ rule. again rule (w, log')) h k (λ rule. l rule w log')

module _ {W Conn T : Type 0} (env : Env W Conn T) (options : RetryOptions) (limit : ℕ)
    (bound : IsLimit limit options) where
  Finishes-body :
      (fuel i : ℕ) (log run_log : List Event) (r : Result Error T)
      (returned : Option (TransactionResult Conn)) (w : W)
      → run_log ≡ so_far i (is_ok r) (has_started returned) log
      → ((rule : RetryRule) (s : W) (log' : List Event)
          → i < limit
          → Finishes limit (suc i) (log' ++ (slept ∷ [])) (
              transaction fuel
                (logged env)
                options
                (suc i)
                ((logged env).sleep (rule.backoff (suc i)) (s, log'))))
      → Finishes limit i log (elim r [
        | panic ↦ some (panic, (w, run_log))
        | ok v ↦ elim returned [
          | none ↦ some (panic, (w, run_log))
          | some t ↦ committed v (end_with (logged env) commit t (w, run_log))
        ]
        | err e ↦ elim returned [
          | none ↦ some (panic, (w, run_log))
          | some t ↦
              let (ended, w3) = end_with (logged env) rollback t (w, run_log) in
              elim ended [
                | err x ↦ some (err x, w3)
                | panic ↦ some (panic, w3)
                | ok _ ↦ elim (retry_rule options i (chain e)) [
                  | none ↦ some (err e, w3)
                  | some rule ↦
                      transaction fuel
                        (logged env)
                        options
                        (suc i)
                        ((logged env).sleep (rule.backoff (suc i)) w3)
                ]
              ]
        ]
      ])
  unfolding is_ok has_started
  Finishes-body fuel i log run_log panic returned w e again =
      (_, e ∙ append_assoc log (acquired ∷ []) _, panicked _)
  Finishes-body fuel i log run_log (ok v) none w e again =
      (_, e ∙ append_assoc log (acquired ∷ []) _, panicked _)
  Finishes-body fuel i log run_log (ok v) (some t) w e again =
      Finishes-committed limit i log v t.started _ (
        Settled-moved run_log _ commit t.started _ e
          (Settled-end_with env commit t.conn t.started w run_log))
  Finishes-body fuel i log run_log (err x) none w e again =
      (_, e ∙ append_assoc log (acquired ∷ []) _, panicked _)
  Finishes-body fuel i log run_log (err x) (some t) w e again =
      Finishes-ended limit i log x t.started _ (retry_rule options i (chain x))
        (λ rule s.
          transaction fuel (logged env) options (suc i)
            ((logged env).sleep (rule.backoff (suc i)) s))
        (Settled-moved run_log _ rollback t.started _ e
          (Settled-end_with env rollback t.conn t.started w run_log))
        (λ rule h. retry_rule-lt limit options i (chain x) rule bound h) again

  Finishes-acquired :
      (i : ℕ) (log : List Event) (r : Result Error Conn) (w : W)
      (run : Conn → Option (Result Error T × (W × List Event)))
      → ((conn : Conn) → Finishes limit i log (run conn))
      → Finishes limit i log (elim r [
        | err e ↦ some (err e, (w, log ++ (acquired ∷ [])))
        | panic ↦ some (panic, (w, log ++ (acquired ∷ [])))
        | ok conn ↦ run conn
      ])
  Finishes-acquired i log (err e) w run h = (acquired ∷ [], refl, not_acquired e)
  Finishes-acquired i log panic w run h = (acquired ∷ [], refl, panicked _)
  Finishes-acquired i log (ok conn) w run h = h conn

  Finishes-loop :
      (fuel i : ℕ) (w : W) (log : List Event)
      → i ≤ limit
      → limit < i + fuel
      → Finishes limit i log (transaction fuel (logged env) options i (w, log))
  unfolding transaction logged
  Finishes-loop zero i w log h k = absurd (omega arith)
  Finishes-loop (suc fuel) i w log h k =
      let (r, w1) = env.acquire w in
      Finishes-acquired i log r w1 _ λ conn.
        let (result, returned, w2) = env.body i conn w1 in
        Finishes-body fuel i log _ result returned w2 refl λ rule s log' more.
          Finishes-loop fuel (suc i) (env.sleep (rule.backoff (suc i)) s) (log' ++ (slept ∷ []))
            (omega arith) (omega arith)

-- Let no rule of the options allow more than `limit` attempts. Then `transaction` comes back within
-- `limit` + 1 attempts, whatever the pool, the connections and the body do. If it does not panic,
-- every attempt that has started a transaction ends it, with COMMIT if the body has returned a value
-- and with ROLLBACK if it has returned an error, and no other attempt states either; a value is
-- returned only behind a COMMIT that has succeeded or where nothing was started; and another attempt follows only where the ROLLBACK has
-- succeeded or nothing was started. The attempts are numbered from 0.
pub transaction-Finishes :
    {W Conn T : Type 0} (env : Env W Conn T) (options : RetryOptions) (limit fuel : ℕ) (w : W)
    → IsLimit limit options
    → limit < fuel
    → Finishes limit 0 [] (transaction fuel (logged env) options 0 (w, []))
transaction-Finishes env options limit fuel w bound h =
    Finishes-loop env options limit bound fuel 0 w [] (omega arith) (omega arith)
