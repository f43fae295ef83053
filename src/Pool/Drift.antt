-- ===== src/Pool/Drift.antt =====
-- `acquired_conns` counts a connection each time that it is taken from the pool, and forgets it
-- only when it is given back inconsistent.
use edgedb_rust.Base.{
  ℕ, zero, suc, ◌+◌, ◌*◌, ◌%◌, ◌≤◌, ◌<◌, ◌^◌, ◌≡◌, refl, ap, [], ◌∷◌, some, true, false, ltb,
  lt→ltb, arith,
}
use edgedb_rust.Pool.Inner.{
  Connection, normal, dirty, is_consistent, release, Acquired, acquire, next_connection, commit,
  handle, increment, decrement,
}
use edgedb_rust.Pool.System.{
  System, try_send, Run, live, reuse, connect, establish, query, give_back, serve, start, next,
}
use edgedb_rust.Pool.Counters.{increment_lem}

abbrev one : Connection
one = record { id = 0; state = normal }

abbrev spoilt : Connection
spoilt = record { id = 0; state = dirty }

-- One connection is held, and the pool counts `count` of them.
abbrev pub lent : (count : ℕ) → System
lent count = record {
  inner = record { in_progress = 0; acquired_conns = count; conns = [] };
  running = true;
  chan = [];
  opening = 0;
  held = one ∷ [];
}

-- No connection is left, and the pool counts `count` of them.
abbrev pub deserted : (count : ℕ) → System
deserted count = record {
  inner = record { in_progress = 0; acquired_conns = count; conns = [] };
  running = true;
  chan = [];
  opening = 0;
  held = [];
}

-- Two steps open the first connection.
lent_first : (m : ℕ) → 1 ≤ m → Run m 2 (lent 1)
unfolding acquire next_connection increment decrement commit
lent_first m h =
    next
      (next start (
        connect (record { in_progress = 1; acquired_conns = 0; conns = [] })
          (rw (lt→ltb 0 m h) refl)))
      (establish one 0 refl)

-- Three steps give it back and take it again.
lent_again :
    (m n count : ℕ)
    → count < 2 ^ 63
    → Run m n (lent count)
    → Run m (suc (suc (suc n))) (lent (suc count))
unfolding acquire next_connection handle is_consistent try_send
lent_again m n count small r =
    next (next (next r (give_back [] [] one refl)) (serve (release one) [] _ refl refl refl)) (
      reuse one (record { in_progress = 0; acquired_conns = suc count; conns = [] })
        (ap (λ k. Acquired.reused one (record { in_progress = 0; acquired_conns = k; conns = [] }))
          (increment_lem count small)))

lent_often : (m count : ℕ) → 1 ≤ m → count < 2 ^ 63 → Run m (2 + 3 * count) (lent (suc count))
lent_often m zero h small = lent_first m h
lent_often m (suc count) h small =
    let steps : suc (suc (suc (2 + 3 * count))) ≡ 2 + 3 * suc count = omega arith in
    rw steps at
      (lent_again m (2 + 3 * count) (suc count) small (lent_often m count h (omega arith)))

lowered : (count : ℕ) → suc count < 2 ^ 63 → decrement (suc count) ≡ count
unfolding decrement
lowered count small = omega arith

-- Three steps spoil it and give it back.
deserted_after :
    (m n count : ℕ)
    → suc count < 2 ^ 63
    → Run m n (lent (suc count))
    → Run m (suc (suc (suc n))) (deserted count)
unfolding handle is_consistent try_send
deserted_after m n count small r =
    next (next (next r (query [] [] one spoilt refl)) (give_back [] [] spoilt refl)) (
      serve (release spoilt) [] _ refl refl (
        ap (λ k. some (record { in_progress = 0; acquired_conns = k; conns = [] }))
          (lowered count small)))

full : (m : ℕ) → m < 2 ^ 62 → acquire m (deserted m).inner ≡ Acquired.waiting
unfolding acquire next_connection
full m h = let e : ltb ((0 + m) % 2 ^ 64) m ≡ false = ground arith in rw e refl

-- Whatever its limit from one on, a pool of one connection that is given back and taken again as
-- often as the limit says, and is then given back spoilt, has no connection, opens none, and has
-- every `acquire` wait, while `main` has nothing left to do.
pub deserted_pool :
    (max_connections : ℕ)
    → 1 ≤ max_connections
    → max_connections < 2 ^ 62
    → (n : ℕ) × (s : System) × Run max_connections n s
      × (live s ≡ 0)
      × (s.chan ≡ [])
      × (s.running ≡ true)
      × (acquire max_connections s.inner ≡ Acquired.waiting)
deserted_pool m h small = (
  suc (suc (suc (2 + 3 * m))),
  deserted m,
  deserted_after m (2 + 3 * m) m (omega arith) (lent_often m m h (omega arith)),
  refl,
  refl,
  refl,
  full m small,
)
