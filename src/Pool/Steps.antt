-- ===== src/Pool/Steps.antt =====
-- edgedb-client/src/pool: the steps of the pool's tasks, against the invariant of Pool.Bound.
use edgedb_rust.Base.{
  ℕ, suc, ◌-◌, ◌≤◌, ◌<◌, ◌^◌, ◌≡◌, ap, ◌∙◌, All, List, [], ◌∷◌, ◌++◌, true, Bool, length,
  if◌then◌else◌, arith,
}
use edgedb_rust.Pool.Inner.{
  Connection, Inner, Command, release, connection_canceled, connection_established, close, Acquired,
  InProgressState, acquire, commit, increment, decrement, drop_in_progress,
}
use edgedb_rust.Pool.System.{System, try_send}
use edgedb_rust.Pool.Counters.{
  ended-append, releases-append, Covered-weaken, Covered-suc, Covered-append, Covered-le, Paired-le,
  Paired-append, established-le, increment_lem, decrement_lem,
}
use edgedb_rust.Pool.Bound.{IsPool, Consistent, next_connection-reused, next_connection-connecting}

module _ (m n : ℕ) where
  pub if-IsPool :
      (b : Bool) (s t : System) → IsPool m n s → IsPool m n t → IsPool m n (if b then s else t)
  if-IsPool true s t v w = v
  if-IsPool Bool.false s t v w = w

  -- What is sent arrives if `main` still runs, and is lost otherwise.
  pub try_send-IsPool :
      (q : List Command) (s : System)
      → IsPool m n s
      → IsPool m n (record s { chan = s.chan ++ q })
      → IsPool m n (try_send q s)
  unfolding try_send
  try_send-IsPool q s lost sent = if-IsPool s.running (record s { chan = s.chan ++ q }) s sent lost

  -- One `InProgress` less, and what its end sends.
  close_opening :
      (k : ℕ) (s : System)
      → s.opening ≡ suc k
      → IsPool m n s
      → IsPool m n (record s { opening = k })
  close_opening k s e v = record {
    in_progress_small = v.in_progress_small;
    acquired_small = v.acquired_small;
    opening_counted = omega (arith, v.opening_counted);
    held_covered = v.held_covered;
    chan_paired = v.chan_paired;
    idle_consistent = v.idle_consistent;
    limit_kept = omega (arith, v.limit_kept);
  }

  pub fail-IsPool :
      (k : ℕ) (s : System)
      → s.opening ≡ suc k
      → IsPool m n s
      → IsPool m n
          (try_send (drop_in_progress InProgressState.connecting) (record s { opening = k }))
  unfolding drop_in_progress
  fail-IsPool k s e v =
      try_send-IsPool (connection_canceled ∷ []) (record s { opening = k }) (close_opening k s e v)
        (record {
          in_progress_small = v.in_progress_small;
          acquired_small = v.acquired_small;
          opening_counted =
              omega (arith, v.opening_counted, ended-append s.chan (connection_canceled ∷ []));
          held_covered =
              Covered-append (length s.held) (length s.held) _ s.chan (connection_canceled ∷ [])
                (λ b h. h) v.held_covered;
          chan_paired =
              Paired-append s.chan (connection_canceled ∷ []) v.chan_paired (omega arith, tt);
          idle_consistent = v.idle_consistent;
          limit_kept =
              omega (arith, v.limit_kept, releases-append s.chan (connection_canceled ∷ []));
        })

  pub interrupt-IsPool :
      (c : Connection) (k : ℕ) (s : System)
      → s.opening ≡ suc k
      → IsPool m n s
      → IsPool m n (
          try_send
            (drop_in_progress InProgressState.comitting ++ (release c ∷ []))
            (record s { opening = k }))
  unfolding drop_in_progress
  interrupt-IsPool c k s e v =
      try_send-IsPool (connection_established ∷ release c ∷ []) (record s { opening = k })
        (close_opening k s e v)
        (record {
          in_progress_small = v.in_progress_small;
          acquired_small = v.acquired_small;
          opening_counted = omega (
            arith,
            v.opening_counted,
            ended-append s.chan (connection_established ∷ release c ∷ []),
          );
          held_covered =
              Covered-append (length s.held) (length s.held) _ s.chan
                (connection_established ∷ release c ∷ []) (λ b h. (omega arith, omega arith))
                v.held_covered;
          chan_paired =
              Paired-append s.chan (connection_established ∷ release c ∷ []) v.chan_paired
                (omega arith, (omega arith, tt));
          idle_consistent = v.idle_consistent;
          limit_kept = omega (
            arith,
            v.limit_kept,
            releases-append s.chan (connection_established ∷ release c ∷ []),
          );
        })

  -- Another list of held connections, as many or fewer.
  pub hold-IsPool :
      (held : List Connection) (s : System)
      → length held ≤ length s.held
      → IsPool m n s
      → IsPool m n (record s { held = held })
  hold-IsPool held s h v = record {
    in_progress_small = v.in_progress_small;
    acquired_small = v.acquired_small;
    opening_counted = v.opening_counted;
    held_covered =
        Covered-weaken (length s.held) s.inner.acquired_conns (length held) s.inner.acquired_conns
          s.chan h (omega arith) v.held_covered;
    chan_paired = v.chan_paired;
    idle_consistent = v.idle_consistent;
    limit_kept = omega (arith, v.limit_kept);
  }

  pub give_back-IsPool :
      (c : Connection) (held : List Connection) (s : System)
      → length s.held ≡ suc (length held)
      → IsPool m n s
      → IsPool m n (try_send (release c ∷ []) (record s { held = held }))
  give_back-IsPool c held s e v =
      try_send-IsPool (release c ∷ []) (record s { held = held })
        (hold-IsPool held s (omega arith) v)
        (record {
          in_progress_small = v.in_progress_small;
          acquired_small = v.acquired_small;
          opening_counted = omega (arith, v.opening_counted, ended-append s.chan (release c ∷ []));
          held_covered =
              Covered-append (length s.held) (length held) _ s.chan (release c ∷ [])
                (λ b h. (omega arith, omega arith)) v.held_covered;
          chan_paired = Paired-append s.chan (release c ∷ []) v.chan_paired (omega arith, tt);
          idle_consistent = v.idle_consistent;
          limit_kept = omega (arith, v.limit_kept, releases-append s.chan (release c ∷ []));
        })

  pub shut-IsPool : (s : System) → IsPool m n s → IsPool m n (try_send (close ∷ []) s)
  shut-IsPool s v = try_send-IsPool (close ∷ []) s v (record {
    in_progress_small = v.in_progress_small;
    acquired_small = v.acquired_small;
    opening_counted = omega (arith, v.opening_counted, ended-append s.chan (close ∷ []));
    held_covered =
        Covered-append (length s.held) (length s.held) _ s.chan (close ∷ []) (λ b h. h)
          v.held_covered;
    chan_paired = Paired-append s.chan (close ∷ []) v.chan_paired (omega arith, tt);
    idle_consistent = v.idle_consistent;
    limit_kept = omega (arith, v.limit_kept, releases-append s.chan (close ∷ []));
  })

  pub stop-IsPool :
      (s : System) → IsPool m n s → IsPool m n (record s { running = Bool.false; chan = [] })
  stop-IsPool s v = record {
    in_progress_small = v.in_progress_small;
    acquired_small = v.acquired_small;
    opening_counted = omega (arith, v.opening_counted);
    held_covered =
        omega (arith, Covered-le _ _ s.chan v.held_covered, Paired-le s.chan v.chan_paired);
    chan_paired = tt;
    idle_consistent = v.idle_consistent;
    limit_kept = omega (arith, v.limit_kept);
  }

  pub reuse-IsPool :
      (c : Connection) (i : Inner) (s : System)
      → suc n < 2 ^ 63
      → acquire m s.inner ≡ Acquired.reused c i
      → IsPool m n s
      → IsPool m (suc n) (record s { inner = i; held = c ∷ s.held })
  unfolding acquire
  reuse-IsPool c i s small e v =
      let r = next_connection-reused s.inner.conns m s.inner i c e in
      let a : i.acquired_conns ≡ suc s.inner.acquired_conns =
        r.counted ∙ increment_lem s.inner.acquired_conns (omega (arith, v.acquired_small)) in
      let idle : All Consistent (c ∷ i.conns) = rw r.first at v.idle_consistent in
      record {
        in_progress_small = omega (arith, r.opening_kept, v.in_progress_small);
        acquired_small = omega (arith, a, v.acquired_small);
        opening_counted = omega (arith, r.opening_kept, v.opening_counted);
        held_covered =
            rw a (Covered-suc (length s.held) s.inner.acquired_conns s.chan v.held_covered);
        chan_paired = v.chan_paired;
        idle_consistent = idle.1;
        limit_kept = omega (arith, v.limit_kept, ap length r.first);
      }

  pub connect-IsPool :
      (i : Inner) (s : System)
      → suc n < 2 ^ 63
      → acquire m s.inner ≡ Acquired.connecting i
      → IsPool m n s
      → IsPool m (suc n) (record s { inner = i; opening = suc s.opening })
  unfolding acquire
  connect-IsPool i s small e v =
      let r = next_connection-connecting s.inner.conns m s.inner i e in
      let p : i.in_progress ≡ suc s.inner.in_progress =
        r.opening_counted
        ∙ increment_lem s.inner.in_progress (omega (arith, v.in_progress_small)) in
      record {
        in_progress_small = omega (arith, p, v.in_progress_small);
        acquired_small = omega (arith, r.acquired_kept, v.acquired_small);
        opening_counted = omega (arith, p, v.opening_counted);
        held_covered = rw r.acquired_kept v.held_covered;
        chan_paired = v.chan_paired;
        idle_consistent = rw r.conns_kept v.idle_consistent;
        limit_kept = omega (
          arith,
          r.below,
          v.in_progress_small,
          v.acquired_small,
          v.opening_counted,
          Covered-le _ _ s.chan v.held_covered,
          established-le s.chan,
          ap length r.none_idle,
          ap length r.conns_kept,
        );
      }

  pub establish-IsPool :
      (c : Connection) (k : ℕ) (s : System)
      → suc n < 2 ^ 63
      → s.opening ≡ suc k
      → IsPool m n s
      → IsPool m (suc n) (record s { inner = commit s.inner; opening = k; held = c ∷ s.held })
  unfolding commit
  establish-IsPool c k s small e v =
      let p : decrement s.inner.in_progress ≡ s.inner.in_progress - 1 =
        decrement_lem s.inner.in_progress (omega (arith, v.opening_counted))
          (omega (arith, v.in_progress_small)) in
      let a : increment s.inner.acquired_conns ≡ suc s.inner.acquired_conns =
        increment_lem s.inner.acquired_conns (omega (arith, v.acquired_small)) in
      record {
        in_progress_small = omega (arith, p, v.in_progress_small);
        acquired_small = omega (arith, a, v.acquired_small);
        opening_counted = omega (arith, p, v.opening_counted);
        held_covered =
            rw a (Covered-suc (length s.held) s.inner.acquired_conns s.chan v.held_covered);
        chan_paired = v.chan_paired;
        idle_consistent = v.idle_consistent;
        limit_kept = omega (arith, v.limit_kept);
      }
