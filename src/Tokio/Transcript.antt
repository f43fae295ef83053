-- ===== src/Tokio/Transcript.antt =====
-- The calls that the loop of transaction.rs makes of the pool, the connections and the body, as a
-- list, and what a caller may expect of it.
use edgedb_rust.Base.{
  ℕ, suc, ◌<◌, ◌≤◌, ◌≡◌, Bool, true, false, List, [], ◌∷◌, ◌++◌, Option, none, some, Result, ok,
  err, panic, if◌then◌else◌,
}
use edgedb_rust.Errors.{Error}
use edgedb_rust.Tokio.{RetryOptions, get_rule}
use edgedb_rust.Tokio.Transaction.{Statement, commit, rollback, TransactionResult, Env}

-- Of the body it is kept whether it has returned a value, and whether it had started a
-- transaction, unless it has not given it back.
pub data Event : Type 0 where
  acquired slept : Event
  ran : (iteration : ℕ) → (succeeded : Bool) → (started : Option Bool) → Event
  stated : Statement → (succeeded : Bool) → Event

unfoldable pub is_ok : {A : Type 0} → Result Error A → Bool
is_ok (ok a) = true
is_ok (err e) = false
is_ok panic = false

-- Whether a transaction was started, if the body has given it back.
unfoldable pub has_started : {Conn : Type 0} → Option (TransactionResult Conn) → Option Bool
has_started none = none
has_started (some t) = some t.started

-- An environment that keeps a list of the calls beside its state.
unfoldable pub logged : {W Conn T : Type 0} → Env W Conn T → Env (W × List Event) Conn T
unfolding is_ok has_started
logged env = record {
  acquire = λ s. let (r, w) = env.acquire s.0 in (r, (w, s.1 ++ (acquired ∷ [])));
  body = λ i conn s.
      let (r, t, w) = env.body i conn s.0 in
      (r, t, (w, s.1 ++ (ran i (is_ok r) (has_started t) ∷ [])));
  statement = λ x conn s.
      let (r, w) = env.statement x conn s.0 in (r, (w, s.1 ++ (stated x (is_ok r) ∷ [])));
  sleep = λ n s. (env.sleep n s.0, s.1 ++ (slept ∷ []));
}

-- The end of a transaction that was started or not, if its statement succeeds.
unfoldable pub ended_by : Statement → (started : Bool) → List Event
ended_by x started = if started then stated x true ∷ [] else []

-- The calls from the attempt with a number on, and the result. An attempt acquires a connection and
-- runs the body once. The result is a value only if the last attempt was committed or had started
-- nothing. An attempt whose body has failed is rolled back if it was started, and only where that
-- succeeds may another follow, of which the number is at most `limit`.
pub data Transcript {T : Type 0} (limit : ℕ) : ℕ → Result Error T → List Event → Type 0 where
  not_acquired : {i : ℕ} (e : Error) → Transcript limit i (err e) (acquired ∷ [])
  succeeded :
      {i : ℕ} (v : T) (started : Bool)
      → Transcript limit i (ok v) (acquired ∷ ran i true (some started) ∷ ended_by commit started)
  not_committed :
      {i : ℕ} (e : Error)
      → Transcript limit i (err e) (acquired ∷ ran i true (some true) ∷ stated commit false ∷ [])
  not_rolled_back :
      {i : ℕ} (e : Error)
      → Transcript limit i (err e) (acquired ∷ ran i false (some true) ∷ stated rollback false ∷ [])
  failed :
      {i : ℕ} (e : Error) (started : Bool)
      → Transcript limit i
          (err e)
          (acquired ∷ ran i false (some started) ∷ ended_by rollback started)
  retried :
      {i : ℕ} {r : Result Error T} {log : List Event} (started : Bool)
      → i < limit
      → Transcript limit (suc i) r log
      → Transcript limit i r
          (acquired ∷ ran i false (some started) ∷ ended_by rollback started ++ (slept ∷ log))
  panicked : {i : ℕ} (log : List Event) → Transcript limit i panic log

-- No rule allows more than `limit` attempts behind the first.
abbrev pub IsLimit : ℕ → RetryOptions → Type 0
IsLimit limit options = (code : ℕ) → (get_rule options code).attempts ≤ limit

-- The loop has come back, and what it has added to the list of calls is a transcript.
abbrev pub Finishes :
    {W T : Type 0} (limit i : ℕ) (log : List Event)
    → Option (Result Error T × (W × List Event))
    → Type 0
Finishes limit i log none = ⊥
Finishes limit i log (some (r, (w, log'))) =
    (more : List Event) × (log' ≡ log ++ more) × Transcript limit i r more
