-- ===== src/Pool/Limit.antt =====
-- edgedb-client/src/pool: `main` and the runs of the pool, against the invariant of Pool.Bound.
use edgedb_rust.Base.{
  ℕ, zero, suc, ◌-◌, ◌≤◌, ◌<◌, ◌^◌, ◌≡◌, ap, ◌∙◌, ◌≢◌, List, [], ◌∷◌, ◌++◌, some, Bool-cases, All,
  All-append, inl, inr, length, length-append, arith,
}
use edgedb_rust.Pool.Inner.{
  Connection, is_consistent, Inner, Command, release, connection_canceled, connection_established,
  close, Acquired, acquire, next_connection, handle, increment, decrement,
}
use edgedb_rust.Pool.System.{
  System, Step, Run, releases, live, reuse, connect, fail, establish, interrupt, query, give_back,
  shut, serve, stop, start, next,
}
use edgedb_rust.Pool.Counters.{ended, Covered, Covered-weaken, Paired, increment_lem, decrement_lem}
use edgedb_rust.Pool.Bound.{IsPool, Consistent}
use edgedb_rust.Pool.Steps.{
  reuse-IsPool, connect-IsPool, fail-IsPool, establish-IsPool, interrupt-IsPool, hold-IsPool,
  give_back-IsPool, shut-IsPool, stop-IsPool,
}

module _ (m n : ℕ) where
  -- The state once `main` took the first command, whose effect on the pool is given.
  served :
      (command : Command) (rest : List Command) (i : Inner) (s : System)
      → suc n < 2 ^ 63
      → s.chan ≡ command ∷ rest
      → handle command s.inner ≡ some i
      → IsPool m n s
      → IsPool m (suc n) (record s { inner = i; chan = rest })
  unfolding handle
  served (release c) rest i s small q h v =
      let paired : Paired (release c ∷ rest) = rw q at v.chan_paired in
      let covered : Covered (length s.held) s.inner.acquired_conns (release c ∷ rest) =
        rw q at v.held_covered in
      elim (Bool-cases (is_consistent c)) [
        | inl usable ↦
            let j : record s.inner { conns = s.inner.conns ++ (c ∷ []) } ≡ i = cc in
            rw⁻¹ j (record {
              in_progress_small = omega (arith, v.in_progress_small);
              acquired_small = omega (arith, v.acquired_small);
              opening_counted = omega (arith, v.opening_counted, ap ended q);
              held_covered =
                  Covered-weaken (length s.held) (s.inner.acquired_conns - 1) (length s.held)
                    s.inner.acquired_conns rest (omega arith) (omega arith) covered.1;
              chan_paired = paired.1;
              idle_consistent =
                  All-append s.inner.conns (c ∷ []) Consistent v.idle_consistent (usable, tt);
              limit_kept =
                  omega (arith, v.limit_kept, ap releases q, length-append s.inner.conns (c ∷ []));
            })
        | inr unusable ↦
            let j : record s.inner { acquired_conns = decrement s.inner.acquired_conns } ≡ i = cc in
            let a : decrement s.inner.acquired_conns ≡ s.inner.acquired_conns - 1 =
              decrement_lem s.inner.acquired_conns covered.0 (omega (arith, v.acquired_small)) in
            rw⁻¹ j (record {
              in_progress_small = omega (arith, v.in_progress_small);
              acquired_small = omega (arith, a, v.acquired_small);
              opening_counted = omega (arith, v.opening_counted, ap ended q);
              held_covered = rw a covered.1;
              chan_paired = paired.1;
              idle_consistent = v.idle_consistent;
              limit_kept = omega (arith, v.limit_kept, ap releases q);
            })
      ]
  served connection_canceled rest i s small q h v =
      let paired : Paired (connection_canceled ∷ rest) = rw q at v.chan_paired in
      let covered : Covered (length s.held) s.inner.acquired_conns (connection_canceled ∷ rest) =
        rw q at v.held_covered in
      let j : record s.inner { in_progress = decrement s.inner.in_progress } ≡ i = cc in
      let p : decrement s.inner.in_progress ≡ s.inner.in_progress - 1 =
        decrement_lem s.inner.in_progress (omega (arith, v.opening_counted, ap ended q))
          (omega (arith, v.in_progress_small)) in
      rw⁻¹ j (record {
        in_progress_small = omega (arith, p, v.in_progress_small);
        acquired_small = omega (arith, v.acquired_small);
        opening_counted = omega (arith, p, v.opening_counted, ap ended q);
        held_covered = covered;
        chan_paired = paired.1;
        idle_consistent = v.idle_consistent;
        limit_kept = omega (arith, v.limit_kept, ap releases q);
      })
  served connection_established rest i s small q h v =
      let paired : Paired (connection_established ∷ rest) = rw q at v.chan_paired in
      let covered : Covered (length s.held) (suc s.inner.acquired_conns) rest =
        rw q at v.held_covered in
      let j : record s.inner {
        in_progress = decrement s.inner.in_progress;
        acquired_conns = increment s.inner.acquired_conns;
      }
          ≡ i =
        cc in
      let p : decrement s.inner.in_progress ≡ s.inner.in_progress - 1 =
        decrement_lem s.inner.in_progress (omega (arith, v.opening_counted, ap ended q))
          (omega (arith, v.in_progress_small)) in
      let a : increment s.inner.acquired_conns ≡ suc s.inner.acquired_conns =
        increment_lem s.inner.acquired_conns (omega (arith, v.acquired_small)) in
      rw⁻¹ j (record {
        in_progress_small = omega (arith, p, v.in_progress_small);
        acquired_small = omega (arith, a, v.acquired_small);
        opening_counted = omega (arith, p, v.opening_counted, ap ended q);
        held_covered = rw a covered;
        chan_paired = paired.1;
        idle_consistent = v.idle_consistent;
        limit_kept = omega (arith, v.limit_kept, ap releases q);
      })
  served close rest i s small q h v = cc

  later : (s : System) → IsPool m n s → IsPool m (suc n) s
  later s v = record {
    in_progress_small = omega (arith, v.in_progress_small);
    acquired_small = omega (arith, v.acquired_small);
    opening_counted = v.opening_counted;
    held_covered = v.held_covered;
    chan_paired = v.chan_paired;
    idle_consistent = v.idle_consistent;
    limit_kept = v.limit_kept;
  }

  length-middle :
      (xs ys : List Connection) (c : Connection) → length (xs ++ (c ∷ ys)) ≡ suc (length (xs ++ ys))
  length-middle xs ys c = omega (arith, length-append xs (c ∷ ys), length-append xs ys)

  step-IsPool : (s t : System) → suc n < 2 ^ 63 → Step m s t → IsPool m n s → IsPool m (suc n) t
  step-IsPool s t small (reuse c i e) v = reuse-IsPool m n c i s small e v
  step-IsPool s t small (connect i e) v = connect-IsPool m n i s small e v
  step-IsPool s t small (fail k e) v = later _ (fail-IsPool m n k s e v)
  step-IsPool s t small (establish c k e) v = establish-IsPool m n c k s small e v
  step-IsPool s t small (interrupt c k e) v = later _ (interrupt-IsPool m n c k s e v)
  step-IsPool s t small (query xs ys c d e) v = later _ (
      hold-IsPool m n (xs ++ (d ∷ ys)) s
        (omega (arith, ap length e, length-middle xs ys c, length-middle xs ys d)) v)
  step-IsPool s t small (give_back xs ys c e) v =
      later _ (give_back-IsPool m n c (xs ++ ys) s (ap length e ∙ length-middle xs ys c) v)
  step-IsPool s t small shut v = later _ (shut-IsPool m n s v)
  step-IsPool s t small (serve command rest i r q h) v = served command rest i s small q h v
  step-IsPool s t small (stop command rest r q h) v = later _ (stop-IsPool m n s v)

reachable-IsPool : (m n : ℕ) (s : System) → n < 2 ^ 63 → Run m n s → IsPool m n s
reachable-IsPool m zero s small start = record {
  in_progress_small = omega arith;
  acquired_small = omega arith;
  opening_counted = omega arith;
  held_covered = omega arith;
  chan_paired = tt;
  idle_consistent = tt;
  limit_kept = omega arith;
}
reachable-IsPool m (suc n) t small (next {s = s} r e) =
    step-IsPool m n s t small e (reachable-IsPool m n s (omega arith) r)

-- In every state that fewer than 2^63 steps of the pool reach, in whatever order its tasks take
-- them, the connections that are open or being opened (held, idle, in the channel to be released,
-- or in an unfinished `acquire`) are no more than `max_connections`.
pub live-le :
    (max_connections n : ℕ) (s : System)
    → n < 2 ^ 63
    → Run max_connections n s
    → live s ≤ max_connections
live-le max_connections n s small r = (reachable-IsPool max_connections n s small r).limit_kept

next_connection-ne-assertion_failed :
    (conns : List Connection) (m : ℕ) (i : Inner)
    → All Consistent conns
    → next_connection conns m i ≢ Acquired.assertion_failed
unfolding next_connection
next_connection-ne-assertion_failed [] m i h e = ground arith
next_connection-ne-assertion_failed (c ∷ conns) m i h e = ground (arith, h.0)

-- In every such state the assertion of `acquire` holds: an idle connection is consistent.
pub acquire-ne-assertion_failed :
    (max_connections n : ℕ) (s : System)
    → n < 2 ^ 63
    → Run max_connections n s
    → acquire max_connections s.inner ≢ Acquired.assertion_failed
unfolding acquire
acquire-ne-assertion_failed max_connections n s small r =
    next_connection-ne-assertion_failed s.inner.conns max_connections s.inner
      (reachable-IsPool max_connections n s small r).idle_consistent
