-- ===== src/Pool/Inner.antt =====
-- edgedb-client/src/pool/main.rs and implementation.rs: what the pool's lock protects, and what is
-- done under the lock. A `usize` has 64 bits and wraps, as in a release build.
use edgedb_rust.Base.{
  ℕ, ◌+◌, ◌-◌, ◌%◌, ◌^◌, List, [], ◌∷◌, ◌++◌, Option, none, some, Bool, true, false, ltb,
  if◌then◌else◌,
}

-- `State` of client.rs, without the time since which a connection is idle.
pub data ConnectionState : Type 0 where
  normal dirty awaiting_ping : ConnectionState

-- What the pool sees of a connection: which one it is, and its state.
pub record Connection : Type 0 where
  pub id : ℕ
  pub state : ConnectionState

unfoldable pub is_consistent : Connection → Bool
is_consistent conn = elim conn.state [ normal ↦ true | dirty ↦ false | awaiting_ping ↦ false ]

pub record Inner : Type 0 where
  pub in_progress : ℕ
  pub acquired_conns : ℕ
  pub conns : List Connection

abbrev pub new_inner : Inner
new_inner = record { in_progress = 0; acquired_conns = 0; conns = [] }

unfoldable pub increment : ℕ → ℕ
increment n = (n + 1) % 2 ^ 64

unfoldable pub decrement : ℕ → ℕ
decrement n = (n + (2 ^ 64 - 1)) % 2 ^ 64

pub data Command : Type 0 where
  release : Connection → Command
  connection_canceled connection_established close : Command

-- One round of `main`, or `none` where it ends.
unfoldable pub handle : Command → Inner → Option Inner
handle (release conn) inner = some (
    if is_consistent conn
    then record inner { conns = inner.conns ++ (conn ∷ []) }
    else record inner { acquired_conns = decrement inner.acquired_conns })
handle connection_canceled inner = some (record inner { in_progress = decrement inner.in_progress })
handle connection_established inner = some (record inner {
  in_progress = decrement inner.in_progress;
  acquired_conns = increment inner.acquired_conns;
})
handle close inner = none

-- How one round of the loop of `PoolInner::acquire` ends: with an idle connection, with a new one
-- to be opened, with a wait for a release, or with the panic of its assertion.
pub data Acquired : Type 0 where
  reused : (conn : Connection) → Inner → Acquired
  connecting : Inner → Acquired
  waiting : Acquired
  assertion_failed : Acquired

unfoldable pub next_connection : List Connection → (max_connections : ℕ) → Inner → Acquired
next_connection (conn ∷ conns) max_connections inner =
    if is_consistent conn
    then reused conn
        (record inner { acquired_conns = increment inner.acquired_conns; conns = conns })
    else assertion_failed
next_connection [] max_connections inner =
    if ltb ((inner.in_progress + inner.acquired_conns) % 2 ^ 64) max_connections
    then connecting (record inner { in_progress = increment inner.in_progress })
    else waiting

unfoldable pub acquire : (max_connections : ℕ) → Inner → Acquired
unfolding next_connection
acquire max_connections inner = next_connection inner.conns max_connections inner

-- `InProgress::commit`
unfoldable pub commit : Inner → Inner
commit inner = record inner {
  in_progress = decrement inner.in_progress;
  acquired_conns = increment inner.acquired_conns;
}

pub data InProgressState : Type 0 where
  connecting comitting done : InProgressState

-- `InProgress::drop`
unfoldable pub drop_in_progress : InProgressState → List Command
drop_in_progress InProgressState.connecting = connection_canceled ∷ []
drop_in_progress InProgressState.comitting = connection_established ∷ []
drop_in_progress InProgressState.done = []
