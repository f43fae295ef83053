-- ===== src/Pool/Tests.antt =====
-- Runs of the pool, and the theorems at concrete inputs.
use edgedb_rust.Base.{ℕ, ◌≤◌, ◌≡◌, refl, ◌≢◌, [], ◌∷◌, true, arith}
use edgedb_rust.Pool.Inner.{
  Connection, normal, Acquired, acquire, next_connection, commit, increment, decrement,
}
use edgedb_rust.Pool.System.{System, Run, live, start, next, connect, establish}
use edgedb_rust.Pool.Limit.{live-le, acquire-ne-assertion_failed}
use edgedb_rust.Pool.Drift.{deserted_pool}

abbrev first : Connection
first = record { id = 0; state = normal }

abbrev opened : System
opened = record {
  inner = record { in_progress = 0; acquired_conns = 1; conns = [] };
  running = true;
  chan = [];
  opening = 0;
  held = first ∷ [];
}

opened-Run : Run 1 2 opened
unfolding acquire next_connection increment decrement commit
opened-Run =
    next (next start (connect (record { in_progress = 1; acquired_conns = 0; conns = [] }) refl))
      (establish first 0 refl)

live-le_example : live opened ≤ 1
live-le_example = live-le 1 2 opened (omega arith) opened-Run

acquire-ne-assertion_failed_example : acquire 1 opened.inner ≢ Acquired.assertion_failed
acquire-ne-assertion_failed_example =
    acquire-ne-assertion_failed 1 2 opened (omega arith) opened-Run

deserted_pool_example :
    (n : ℕ) × (s : System) × Run 10 n s
    × (live s ≡ 0)
    × (s.chan ≡ [])
    × (s.running ≡ true)
    × (acquire 10 s.inner ≡ Acquired.waiting)
deserted_pool_example = deserted_pool 10 (omega arith) (omega arith)
