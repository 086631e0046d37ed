-- ===== src/Sharedmem/Clients/Waiting.antt =====
-- A thread that waits for clients waits for someone: notices are not lost.
use message_transport.Common.{ℕ, ◌+◌, ◌≤◌, ◌≡◌, ◌≢◌, refl, ap, ◌∙◌, List, [], ◌∷◌, map, arith}
use message_transport.Sharedmem.Clients.Phases.{
  Phase, blocked, waiting_inside, waiting_outside, Monitor, Notice, block_freed, manager_freed,
  hear, at_zero, Move, listen, time_out, join, start_reading, stop_reading, stop_reading_fails,
  leave, leave_fails, enter, enter_waits, enter_again, start_writing, stop_writing,
  stop_writing_fails, signal, go_out, resize, resize_waits, resize_again, resized, manage,
  manage_waits, manage_again, managed, go_elsewhere, come_back, come_back_fails, System, Step,
  start, Reachable, begin, then_step,
}
use message_transport.Sharedmem.Clients.Totals.{total, total-append, total-replicate}

-- Waiting in `check_clients`; in `check_global_clients`.
unfoldable pub at_block : Phase → ℕ
at_block blocked = 1
at_block p = 0

unfoldable pub at_manager : Phase → ℕ
at_manager (waiting_inside w) = 1
at_manager waiting_outside = 1
at_manager p = 0

at_block-hear : (n : Notice) (p : Phase) → at_block (hear n p) ≤ at_block p
unfolding hear at_block
at_block-hear n p = ground arith

at_block-freed : (p : Phase) → at_block (hear block_freed p) ≡ 0
unfolding hear at_block
at_block-freed p = ground arith

at_manager-hear : (n : Notice) (p : Phase) → at_manager (hear n p) ≤ at_manager p
unfolding hear at_manager
at_manager-hear n p = ground arith

at_manager-freed : (p : Phase) → at_manager (hear manager_freed p) ≡ 0
unfolding hear at_manager
at_manager-freed p = ground arith

total-map_le :
    (f : Phase → ℕ) (g : Phase → Phase) (ps : List Phase)
    → ((p : Phase) → f (g p) ≤ f p)
    → total f (map g ps) ≤ total f ps
unfolding total
total-map_le f g [] h = omega arith
total-map_le f g (p ∷ ps) h = omega (arith, h p, total-map_le f g ps h)

total-map_none :
    (f : Phase → ℕ) (g : Phase → Phase) (ps : List Phase)
    → ((p : Phase) → f (g p) ≡ 0)
    → total f (map g ps) ≡ 0
unfolding total
total-map_none f g [] h = refl
total-map_none f g (p ∷ ps) h = omega (arith, h p, total-map_none f g ps h)

-- The threads that wait after a step.
heard_le :
    (f : Phase → ℕ) {s t : System} (step : Step s t)
    → ((n : Notice) (p : Phase) → f (hear n p) ≤ f p)
    → total f t.threads + f step.mover ≤ total f s.threads + f step.moved
unfolding total
heard_le f step less = omega (
  arith,
  ap (total f) step.was,
  ap (total f) step.is,
  total-append f step.before (step.mover ∷ step.after),
  total-append f (map (hear step.notice) step.before)
      (step.moved ∷ map (hear step.notice) step.after),
  total-map_le f (hear step.notice) step.before (less step.notice),
  total-map_le f (hear step.notice) step.after (less step.notice),
)

-- No one waits for the notice that was given, but perhaps the mover.
heard_all :
    (f : Phase → ℕ) (n : Notice) {s t : System} (step : Step s t)
    → ((p : Phase) → f (hear n p) ≡ 0)
    → step.notice ≡ n
    → total f t.threads ≡ f step.moved
unfolding total
heard_all f n step none_left e =
    let freed : (p : Phase) → f (hear step.notice p) ≡ 0 =
      λ p. ap (λ (k : Notice). f (hear k p)) e ∙ none_left p in
    omega (
      arith,
      ap (total f) step.is,
      total-append f (map (hear step.notice) step.before)
          (step.moved ∷ map (hear step.notice) step.after),
      total-map_none f (hear step.notice) step.before freed,
      total-map_none f (hear step.notice) step.after freed,
    )

-- Whoever waits, waits for a client that is registered.
Awaits : Phase → Notice → ℕ → ℕ → Phase → (Phase → ℕ) → Notice → ℕ → ℕ → Type 0
Awaits p n c c' q f freed w w' =
    w' + f p ≤ w + f q → (n ≡ freed → w' ≡ f q) → (w ≢ 0 → c ≢ 0) → w' ≢ 0 → c' ≢ 0

Move-at_block :
    {m m' : Monitor} {p q : Phase} {n : Notice}
    → Move m p n m' q
    → (w w' : ℕ) → Awaits p n m.num_clients m'.num_clients q at_block block_freed w w'
unfolding at_block at_zero Awaits
Move-at_block (listen e) k k' less all waits someone = ground arith
Move-at_block (time_out e) k k' less all waits someone = ground arith
Move-at_block (join e) k k' less all waits someone = ground arith
Move-at_block (start_reading e) k k' less all waits someone = ground arith
Move-at_block (stop_reading e h) k k' less all waits someone = ground arith
Move-at_block (stop_reading_fails e h) k k' less all waits someone = ground arith
Move-at_block (leave e h) k k' less all waits someone = ground arith
Move-at_block (leave_fails e h) k k' less all waits someone = ground arith
Move-at_block (enter e h) k k' less all waits someone = ground arith
Move-at_block (enter_waits e h) k k' less all waits someone = ground arith
Move-at_block (enter_again e) k k' less all waits someone = ground arith
Move-at_block (start_writing w e) k k' less all waits someone = ground arith
Move-at_block (stop_writing w e h) k k' less all waits someone = ground arith
Move-at_block (stop_writing_fails w e h) k k' less all waits someone = ground arith
Move-at_block (signal w) k k' less all waits someone = ground arith
Move-at_block (go_out w) k k' less all waits someone = ground arith
Move-at_block (resize w e h) k k' less all waits someone = ground arith
Move-at_block (resize_waits w e h) k k' less all waits someone = ground arith
Move-at_block (resize_again w e) k k' less all waits someone = ground arith
Move-at_block (resized w) k k' less all waits someone = ground arith
Move-at_block (manage e h) k k' less all waits someone = ground arith
Move-at_block (manage_waits e h) k k' less all waits someone = ground arith
Move-at_block (manage_again e) k k' less all waits someone = ground arith
Move-at_block managed k k' less all waits someone = ground arith
Move-at_block (go_elsewhere e) k k' less all waits someone = ground arith
Move-at_block (come_back e h) k k' less all waits someone = ground arith
Move-at_block (come_back_fails e h) k k' less all waits someone = ground arith

Move-at_manager :
    {m m' : Monitor} {p q : Phase} {n : Notice}
    → Move m p n m' q
    → (w w' : ℕ) → Awaits p n m.global_clients m'.global_clients q at_manager manager_freed w w'
unfolding at_manager at_zero Awaits
Move-at_manager (listen e) k k' less all waits someone = ground arith
Move-at_manager (time_out e) k k' less all waits someone = ground arith
Move-at_manager (join e) k k' less all waits someone = ground arith
Move-at_manager (start_reading e) k k' less all waits someone = ground arith
Move-at_manager (stop_reading e h) k k' less all waits someone = ground arith
Move-at_manager (stop_reading_fails e h) k k' less all waits someone = ground arith
Move-at_manager (leave e h) k k' less all waits someone = ground arith
Move-at_manager (leave_fails e h) k k' less all waits someone = ground arith
Move-at_manager (enter e h) k k' less all waits someone = ground arith
Move-at_manager (enter_waits e h) k k' less all waits someone = ground arith
Move-at_manager (enter_again e) k k' less all waits someone = ground arith
Move-at_manager (start_writing w e) k k' less all waits someone = ground arith
Move-at_manager (stop_writing w e h) k k' less all waits someone = ground arith
Move-at_manager (stop_writing_fails w e h) k k' less all waits someone = ground arith
Move-at_manager (signal w) k k' less all waits someone = ground arith
Move-at_manager (go_out w) k k' less all waits someone = ground arith
Move-at_manager (resize w e h) k k' less all waits someone = ground arith
Move-at_manager (resize_waits w e h) k k' less all waits someone = ground arith
Move-at_manager (resize_again w e) k k' less all waits someone = ground arith
Move-at_manager (resized w) k k' less all waits someone = ground arith
Move-at_manager (manage e h) k k' less all waits someone = ground arith
Move-at_manager (manage_waits e h) k k' less all waits someone = ground arith
Move-at_manager (manage_again e) k k' less all waits someone = ground arith
Move-at_manager managed k k' less all waits someone = ground arith
Move-at_manager (go_elsewhere e) k k' less all waits someone = ground arith
Move-at_manager (come_back e h) k k' less all waits someone = ground arith
Move-at_manager (come_back_fails e h) k k' less all waits someone = ground arith

pub record Awaited (s : System) : Type 0 where
  pub block : total at_block s.threads ≢ 0 → s.monitor.num_clients ≢ 0
  pub manager : total at_manager s.threads ≢ 0 → s.monitor.global_clients ≢ 0

Step-Awaited : {s t : System} → Step s t → Awaited s → Awaited t
unfolding Awaits
Step-Awaited {s} {t} step before = record {
  block =
      Move-at_block step.move (total at_block s.threads) (total at_block t.threads)
        (heard_le at_block step at_block-hear) (heard_all at_block block_freed step at_block-freed)
        before.block;
  manager =
      Move-at_manager step.move (total at_manager s.threads) (total at_manager t.threads)
        (heard_le at_manager step at_manager-hear)
        (heard_all at_manager manager_freed step at_manager-freed) before.manager;
}

-- After any steps of any number of threads, a thread that waits on the block's condition waits while
-- a client is registered with the block, and one that waits on the manager's condition while a
-- client is registered with the manager.
pub Reachable-Awaited : {n : ℕ} {s : System} → Reachable n s → Awaited s
unfolding start at_block at_manager
Reachable-Awaited {n} begin = record {
  block = λ some_wait. absurd (some_wait (total-replicate at_block n refl));
  manager = λ some_wait. absurd (some_wait (total-replicate at_manager n refl));
}
Reachable-Awaited (then_step run step) = Step-Awaited step (Reachable-Awaited run)
