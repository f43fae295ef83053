-- ===== src/Pool/System.antt =====
-- The pool as its tasks use it: the steps that they can take, in any order. A waiting `acquire` is
-- woken to look again; since it may look again at any time here, the condition variable is left
-- out.
use edgedb_rust.Base.{
  ℕ, suc, ◌+◌, ◌≡◌, List, [], ◌∷◌, ◌++◌, none, some, Bool, true, length, if◌then◌else◌,
}
use edgedb_rust.Pool.Inner.{
  Connection, Inner, new_inner, Command, release, connection_canceled, connection_established,
  close, Acquired, InProgressState, acquire, commit, handle, drop_in_progress,
}

pub record System : Type 0 where
  pub inner : Inner
  -- Whether `main` still receives commands.
  pub running : Bool
  pub chan : List Command
  -- The calls of `acquire` that have an `InProgress` and have not committed it.
  pub opening : ℕ
  -- The connections in a `PoolConn`.
  pub held : List Connection

abbrev pub new_pool : System
new_pool = record { inner = new_inner; running = true; chan = []; opening = 0; held = [] }

-- `self.pool.chan.try_send(...).ok()`: nothing happens when `main` has ended.
unfoldable pub try_send : List Command → System → System
try_send commands s = if s.running then record s { chan = s.chan ++ commands } else s

pub data Step (max_connections : ℕ) (s : System) : System → Type 0 where
  -- `acquire` takes an idle connection.
  reuse :
      (c : Connection) (i : Inner)
      → acquire max_connections s.inner ≡ Acquired.reused c i
      → Step max_connections s (record s { inner = i; held = c ∷ s.held })
  -- `acquire` starts to open a connection.
  connect :
      (i : Inner)
      → acquire max_connections s.inner ≡ Acquired.connecting i
      → Step max_connections s (record s { inner = i; opening = suc s.opening })
  -- The connection fails, or the call is dropped.
  fail :
      (n : ℕ)
      → s.opening ≡ suc n
      → Step max_connections s
          (try_send (drop_in_progress InProgressState.connecting) (record s { opening = n }))
  -- The connection is open and counted.
  establish :
      (c : Connection) (n : ℕ)
      → s.opening ≡ suc n
      → Step max_connections s (record s { inner = commit s.inner; opening = n; held = c ∷ s.held })
  -- The connection is open, and the call is dropped while it waits for the lock.
  interrupt :
      (c : Connection) (n : ℕ)
      → s.opening ≡ suc n
      → Step max_connections s (
          try_send
            (drop_in_progress InProgressState.comitting ++ (release c ∷ []))
            (record s { opening = n }))
  -- A query changes the state of the connection that runs it.
  query :
      (xs ys : List Connection) (c d : Connection)
      → s.held ≡ xs ++ (c ∷ ys)
      → Step max_connections s (record s { held = xs ++ (d ∷ ys) })
  -- `PoolConn::drop`
  give_back :
      (xs ys : List Connection) (c : Connection)
      → s.held ≡ xs ++ (c ∷ ys)
      → Step max_connections s (try_send (release c ∷ []) (record s { held = xs ++ ys }))
  -- `Client::close`
  shut : Step max_connections s (try_send (close ∷ []) s)
  -- `main` handles a command.
  serve :
      (command : Command) (rest : List Command) (i : Inner)
      → s.running ≡ true
      → s.chan ≡ command ∷ rest
      → handle command s.inner ≡ some i
      → Step max_connections s (record s { inner = i; chan = rest })
  -- `main` ends.
  stop :
      (command : Command) (rest : List Command)
      → s.running ≡ true
      → s.chan ≡ command ∷ rest
      → handle command s.inner ≡ none
      → Step max_connections s (record s { running = Bool.false; chan = [] })

-- The states that `n` steps reach.
pub data Run (max_connections : ℕ) : ℕ → System → Type 0 where
  start : Run max_connections 0 new_pool
  next :
      {n : ℕ} {s t : System}
      → Run max_connections n s
      → Step max_connections s t
      → Run max_connections (suc n) t

-- The connections that wait in the channel to be released.
abbrev pub releases : List Command → ℕ
releases [] = 0
releases (release c ∷ q) = suc (releases q)
releases (connection_canceled ∷ q) = releases q
releases (connection_established ∷ q) = releases q
releases (close ∷ q) = releases q

-- Every connection that is open, or is being opened.
abbrev pub live : System → ℕ
live s = s.opening + length s.held + releases s.chan + length s.inner.conns
