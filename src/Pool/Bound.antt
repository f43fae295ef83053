-- ===== src/Pool/Bound.antt =====
-- edgedb-client/src/pool: the invariant of the pool's state, and what a round of `acquire` does.
use edgedb_rust.Base.{
  ℕ, ◌+◌, ◌%◌, ◌≤◌, ◌<◌, ◌^◌, ◌≡◌, refl, List, [], ◌∷◌, true, ltb, ltb→lt, Bool-cases, inl, inr,
  All, length,
}
use edgedb_rust.Pool.Inner.{Connection, is_consistent, Inner, Acquired, next_connection, increment}
use edgedb_rust.Pool.System.{System, live}
use edgedb_rust.Pool.Counters.{ended, Covered, Paired}

abbrev pub Consistent : Connection → Type 0
Consistent c = is_consistent c ≡ true

-- What holds after `n` steps: the counters are no greater than `n`, each counts at least what it
-- is for, an idle connection is consistent, and the limit is kept.
pub record IsPool (max_connections n : ℕ) (s : System) : Type 0 where
  pub in_progress_small : s.inner.in_progress ≤ n
  pub acquired_small : s.inner.acquired_conns ≤ n
  pub opening_counted : s.opening + ended s.chan ≤ s.inner.in_progress
  pub held_covered : Covered (length s.held) s.inner.acquired_conns s.chan
  pub chan_paired : Paired s.chan
  pub idle_consistent : All Consistent s.inner.conns
  pub limit_kept : live s ≤ max_connections

-- What `acquire` did, by its outcome.
pub record IsReused (c : Connection) (conns : List Connection) (i j : Inner) : Type 0 where
  pub consistent : is_consistent c ≡ true
  pub first : conns ≡ c ∷ j.conns
  pub opening_kept : j.in_progress ≡ i.in_progress
  pub counted : j.acquired_conns ≡ increment i.acquired_conns

pub record IsConnecting (max_connections : ℕ) (conns : List Connection) (i j : Inner) : Type 0 where
  pub below : (i.in_progress + i.acquired_conns) % 2 ^ 64 < max_connections
  pub none_idle : conns ≡ []
  pub opening_counted : j.in_progress ≡ increment i.in_progress
  pub acquired_kept : j.acquired_conns ≡ i.acquired_conns
  pub conns_kept : j.conns ≡ i.conns

pub next_connection-reused :
    (conns : List Connection) (m : ℕ) (i j : Inner) (c : Connection)
    → next_connection conns m i ≡ Acquired.reused c j
    → IsReused c conns i j
unfolding next_connection
next_connection-reused [] m i j c e =
    elim (Bool-cases (ltb ((i.in_progress + i.acquired_conns) % 2 ^ 64) m)) [
      | inl h ↦ cc
      | inr h ↦ cc
    ]
next_connection-reused (d ∷ ds) m i j c e = elim (Bool-cases (is_consistent d)) [
  | inl h ↦
      let f : Acquired.reused d
            (record i { acquired_conns = increment i.acquired_conns; conns = ds })
          ≡ Acquired.reused c j =
        rw h at e in
      record { consistent = cc; first = cc; opening_kept = cc; counted = cc }
  | inr h ↦ cc
]

pub next_connection-connecting :
    (conns : List Connection) (m : ℕ) (i j : Inner)
    → next_connection conns m i ≡ Acquired.connecting j
    → IsConnecting m conns i j
unfolding next_connection
next_connection-connecting [] m i j e =
    elim (Bool-cases (ltb ((i.in_progress + i.acquired_conns) % 2 ^ 64) m)) [
      | inl h ↦
          let f : Acquired.connecting (record i { in_progress = increment i.in_progress })
              ≡ Acquired.connecting j =
            rw h at e in
          record {
            below = ltb→lt _ _ h;
            none_idle = refl;
            opening_counted = cc;
            acquired_kept = cc;
            conns_kept = cc;
          }
      | inr h ↦ cc
    ]
next_connection-connecting (d ∷ ds) m i j e = elim (Bool-cases (is_consistent d)) [
  | inl h ↦ cc
  | inr h ↦ cc
]
