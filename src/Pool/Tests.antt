-- ===== src/Pool/Tests.antt =====
-- The theorems on the pool and its timer at concrete inputs.
use message_transport.Common.{
  ℕ, ◌+◌, ◌-◌, ◌*◌, ◌≤◌, ◌≡◌, ◌≢◌, ◌⊎◌, true, [], ◌∷◌, ◌==◌, ◌&&◌, if◌then◌else◌, arith,
}
use message_transport.Pool.State.{
  new_timer, start, stop, callback, count, ReleasePool, Destructor, timer_callback,
}
use message_transport.Pool.Release.{timer_callback_lem, run, run-start}

-- The object 7 owns the object 8; somebody outside owns 9.
abbrev three : ReleasePool
three = record {
  timer = record { timeout = 5; expires_at = 15; pending = 1; flag_is_running = true };
  pool = 7 ∷ 9 ∷ 8 ∷ [];
}

abbrev frees_eight : Destructor
frees_eight h o y = if (h == 7) && (y == 8) then o y - 1 else o y

abbrev outside : ℕ → ℕ
outside y = if y == 7 then 0 else 1

frees_eight_lowers : (h : ℕ) (o : ℕ → ℕ) (y : ℕ) → frees_eight h o y ≤ o y
frees_eight_lowers h o y = ground arith

timer_callback_lem_example :
    let (p, owners) = timer_callback frees_eight (three, outside) in
    ((count 8 p.pool ≡ count 8 three.pool)
      ⊎ ((count 8 three.pool ≡ 1) × (count 8 p.pool ≡ 0) × (owners 8 ≡ 0)))
    × ((outside 8 ≢ 0) ⊎ (count 8 three.pool ≢ 1) ⊎ (count 8 p.pool ≡ 0))
timer_callback_lem_example =
    timer_callback_lem frees_eight frees_eight_lowers 8 (omega arith) three outside

run-start_example :
    ((run 3 (start (new_timer 10 5))).expires_at ≡ 10 + 5 + 3 * 5)
    × ((run 3 (start (new_timer 10 5))).pending ≡ 1)
    × ((callback (stop (run 3 (start (new_timer 10 5))))).pending ≡ 0)
run-start_example = run-start 3 10 5
