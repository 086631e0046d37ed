-- ===== src/Pool/Release.antt =====
-- What a sweep leaves in the pool, and how often the timer calls.
use message_transport.Common.{
  ℕ, zero, suc, ◌+◌, ◌-◌, ◌*◌, ◌≤◌, ◌≡◌, ◌≢◌, ◌⊎◌, inl, inr, refl, ap, ◌∙◌, true, [], dec_lt, arith,
}
use message_transport.Pool.State.{
  Timer, new_timer, start, stop, callback, count, ReleasePool, Sweep, Destructor, release_all,
  remove_if, timer_callback,
}
use message_transport.Pool.Sweep.{release_all-le, remove_if-le, remove_if-keeps, remove_if-drops}

module _ (destroy : Destructor) (lowers : (h : ℕ) (o : ℕ → ℕ) (y : ℕ) → destroy h o y ≤ o y) (x : ℕ)
    (real : x ≢ 0) where
  -- A sweep in which the destructors of dropped objects may release others, but make no new owners. An
  -- object keeps all its entries in the pool; or it had one, which is dropped, and when the sweep is
  -- over, nobody outside the pool owns it. Where nobody outside owned it before and it had one entry, it
  -- is dropped. So one that was added twice is never dropped, and one that is owned throughout stays.
  pub timer_callback_lem :
      (p : ReleasePool) (owners : ℕ → ℕ)
      → let (p', owners') = timer_callback destroy (p, owners) in
        ((count x p'.pool ≡ count x p.pool)
          ⊎ ((count x p.pool ≡ 1) × (count x p'.pool ≡ 0) × (owners' x ≡ 0)))
        × ((owners x ≢ 0) ⊎ (count x p.pool ≢ 1) ⊎ (count x p'.pool ≡ 0))
  unfolding timer_callback count
  timer_callback_lem p owners = (
    elim (dec_lt 1 (count x p.pool)) [
      | yes twice ↦ inl (keeps (inl (omega (arith, twice))))
      | no few ↦ elim (dec_lt 0 ((remove_if destroy p.pool w).owners x)) [
        | yes owned ↦ inl (keeps (inr (omega (arith, owned))))
        | no free ↦ elim (dec_lt 0 (count x (remove_if destroy p.pool w).kept)) [
          | yes there ↦ inl (omega (arith, le, few, there))
          | no gone ↦ elim (dec_lt 0 (count x p.pool)) [
            | yes once ↦
                inr (omega (arith, few, once), omega (arith, gone), omega (arith, released, free))
            | no never ↦ inl (omega (arith, gone, never))
          ]
        ]
      ]
    ],
    elim (dec_lt 0 (owners x)) [
      | yes owned ↦ inl (λ e. omega (arith, owned, e))
      | no free ↦ elim (dec_lt 1 (count x p.pool)) [
        | yes twice ↦ inr (inl (λ e. omega (arith, twice, e)))
        | no few ↦ inr (
            inr (
              remove_if-drops destroy lowers x real p.pool w (omega (arith, free)) refl refl
                (omega (arith, few))))
      ]
    ],
  )
    where
      w : Sweep
      w = record { owners = owners; kept = []; gaps = [] }

      keeps :
          (2 ≤ count x w.kept + count x p.pool) ⊎ (1 ≤ (remove_if destroy p.pool w).owners x)
          → count x (remove_if destroy p.pool w).kept ≡ count x p.pool
      keeps used = remove_if-keeps destroy lowers x real p.pool w used ∙ omega arith

      le : count x (remove_if destroy p.pool w).kept ≤ count x w.kept + count x p.pool
      le = remove_if-le destroy lowers x real p.pool w

      released :
          release_all destroy
            (remove_if destroy p.pool w).gaps
            (remove_if destroy p.pool w).owners
            x
          ≤ (remove_if destroy p.pool w).owners x
      released =
          release_all-le destroy lowers x real (remove_if destroy p.pool w).gaps
            (remove_if destroy p.pool w).owners

unfoldable pub run : ℕ → Timer → Timer
run zero t = t
run (suc n) t = run n (callback t)

run_lem :
    (n e timeout : ℕ)
    → run n (record { timeout = timeout; expires_at = e; pending = 1; flag_is_running = true })
      ≡ record {
        timeout = timeout;
        expires_at = e + n * timeout;
        pending = 1;
        flag_is_running = true;
      }
unfolding run callback
run_lem zero e timeout =
    ap
      (λ (x : ℕ). record { timeout = timeout; expires_at = x; pending = 1; flag_is_running = true })
      (omega arith)
run_lem (suc n) e timeout =
    run_lem n (e + timeout) timeout
    ∙ ap
        (λ (x : ℕ). record {
          timeout = timeout;
          expires_at = x;
          pending = 1;
          flag_is_running = true;
        })
        (omega arith)

-- A timer that was started at `now` and has called n times since has its next deadline n timeouts after
-- the first one, which is one timeout after `now`, and one call pending; after `stop` the pending call
-- is the last.
pub run-start :
    (n now timeout : ℕ)
    → ((run n (start (new_timer now timeout))).expires_at ≡ now + timeout + n * timeout)
      × ((run n (start (new_timer now timeout))).pending ≡ 1)
      × ((callback (stop (run n (start (new_timer now timeout))))).pending ≡ 0)
unfolding start new_timer stop callback
run-start n now timeout =
    let e = run_lem n (now + timeout) timeout in
    (
      ap (λ (t : Timer). t.expires_at) e,
      ap (λ (t : Timer). t.pending) e,
      ap (λ (t : Timer). t.pending - 1) e,
    )
