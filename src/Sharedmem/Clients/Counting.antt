-- ===== src/Sharedmem/Clients/Counting.antt =====
-- The counters and the mutexes agree with the threads.
use message_transport.Common.{ℕ, ◌+◌, ◌≤◌, ◌≡◌, ◌≢◌, refl, ap, arith}
use message_transport.Sharedmem.Clients.Phases.{
  Phase, failed, Monitor, new_monitor, Notice, hear, Move, listen, time_out, join, start_reading,
  stop_reading, stop_reading_fails, leave, leave_fails, enter, enter_waits, enter_again,
  start_writing, stop_writing, stop_writing_fails, signal, go_out, resize, resize_waits,
  resize_again, resized, manage, manage_waits, manage_again, managed, go_elsewhere, come_back,
  come_back_fails, System, Step, start, Reachable, begin, then_step,
}
use message_transport.Sharedmem.Clients.Totals.{
  in_block, in_manager, holds_block, holds_manager, as_count, total, total-replicate, total-member,
  total-Step, in_block-hear, in_manager-hear, holds_block-hear, holds_manager-hear,
}

pub record Agrees (s : System) : Type 0 where
  pub clients : total in_block s.threads ≡ s.monitor.num_clients
  pub managers : total in_manager s.threads ≡ s.monitor.global_clients
  pub lock : total holds_block s.threads ≡ as_count s.monitor.locked
  pub manager_lock : total holds_manager s.threads ≡ as_count s.monitor.global_locked

-- The counters have room for the mover, and change by what it gains and loses.
abbrev Covers : Monitor → Phase → Type 0
Covers m p =
    (in_block p ≤ m.num_clients)
    × (in_manager p ≤ m.global_clients)
    × (holds_block p ≤ as_count m.locked)
    × (holds_manager p ≤ as_count m.global_locked)

abbrev Pays : Monitor → Phase → Monitor → Phase → Type 0
Pays m p m' q =
    (m'.num_clients + in_block p ≡ m.num_clients + in_block q)
    × (m'.global_clients + in_manager p ≡ m.global_clients + in_manager q)
    × (as_count m'.locked + holds_block p ≡ as_count m.locked + holds_block q)
    × (as_count m'.global_locked + holds_manager p ≡ as_count m.global_locked + holds_manager q)
    × (q ≢ failed)

Move-Pays :
    {m m' : Monitor} {p q : Phase} {n : Notice} → Move m p n m' q → Covers m p → Pays m p m' q
unfolding in_block in_manager holds_block holds_manager as_count
Move-Pays (listen e) c = ground arith
Move-Pays (time_out e) c = ground arith
Move-Pays (join e) c = ground arith
Move-Pays (start_reading e) c = ground arith
Move-Pays (stop_reading e h) c = ground arith
Move-Pays (stop_reading_fails e h) c = ground arith
Move-Pays (leave e h) c = ground arith
Move-Pays (leave_fails e h) c = ground arith
Move-Pays (enter e h) c = ground arith
Move-Pays (enter_waits e h) c = ground arith
Move-Pays (enter_again e) c = ground arith
Move-Pays (start_writing w e) c = ground arith
Move-Pays (stop_writing w e h) c = ground arith
Move-Pays (stop_writing_fails w e h) c = ground arith
Move-Pays (signal w) c = ground arith
Move-Pays (go_out w) c = ground arith
Move-Pays (resize w e h) c = ground arith
Move-Pays (resize_waits w e h) c = ground arith
Move-Pays (resize_again w e) c = ground arith
Move-Pays (resized w) c = ground arith
Move-Pays (manage e h) c = ground arith
Move-Pays (manage_waits e h) c = ground arith
Move-Pays (manage_again e) c = ground arith
Move-Pays managed c = ground arith
Move-Pays (go_elsewhere e) c = ground arith
Move-Pays (come_back e h) c = ground arith
Move-Pays (come_back_fails e h) c = ground arith

pub Agrees-Covers : {s t : System} (step : Step s t) → Agrees s → Covers s.monitor step.mover
Agrees-Covers {s} step good =
    let at = λ (f : Phase → ℕ). total-member f step.before step.after step.mover in
    let same = λ (f : Phase → ℕ). ap (total f) step.was in
    (
      omega (arith, at in_block, same in_block, good.clients),
      omega (arith, at in_manager, same in_manager, good.managers),
      omega (arith, at holds_block, same holds_block, good.lock),
      omega (arith, at holds_manager, same holds_manager, good.manager_lock),
    )

pub Step-Agrees : {s t : System} → Step s t → Agrees s → Agrees t
Step-Agrees {s} {t} step good =
    let (clients, managers, lock, manager_lock, _) =
      Move-Pays step.move (Agrees-Covers step good) in
    record {
      clients =
          total-Step in_block step s.monitor.num_clients t.monitor.num_clients in_block-hear clients
            good.clients;
      managers =
          total-Step in_manager step s.monitor.global_clients t.monitor.global_clients
            in_manager-hear managers good.managers;
      lock =
          total-Step holds_block step (as_count s.monitor.locked) (as_count t.monitor.locked)
            holds_block-hear lock good.lock;
      manager_lock =
          total-Step holds_manager step (as_count s.monitor.global_locked)
            (as_count t.monitor.global_locked) holds_manager-hear manager_lock good.manager_lock;
    }

pub start-Agrees : (n : ℕ) → Agrees (start n)
unfolding start new_monitor as_count in_block in_manager holds_block holds_manager
start-Agrees n = record {
  clients = total-replicate in_block n refl;
  managers = total-replicate in_manager n refl;
  lock = total-replicate holds_block n refl;
  manager_lock = total-replicate holds_manager n refl;
}

-- Threads whose assertion failed.
unfoldable pub fails : Phase → ℕ
fails failed = 1
fails p = 0

fails-hear : (n : Notice) (p : Phase) → fails (hear n p) ≡ fails p
unfolding hear fails
fails-hear n p = ground arith

pub fails_none : (p : Phase) → p ≢ failed → fails p ≡ 0
unfolding fails
fails_none p h = ground (arith, h)

Step-fails :
    {s t : System} → Step s t → Agrees s → total fails s.threads ≡ 0 → total fails t.threads ≡ 0
Step-fails {s} {t} step good none_before =
    let (_, _, _, _, fine) = Move-Pays step.move (Agrees-Covers step good) in
    total-Step fails step 0 0 fails-hear
      (omega (
        arith,
        fails_none step.moved fine,
        total-member fails step.before step.after step.mover,
        ap (total fails) step.was,
        none_before,
      ))
      none_before

-- After any steps of any number of threads, the counter of the block and that of the manager are
-- exactly the numbers of the threads that are registered there, each mutex is held by one thread or
-- by none, as its flag says, and no assertion that a counter is not negative has failed.
pub Reachable-Agrees : {n : ℕ} {s : System} → Reachable n s → Agrees s × (total fails s.threads ≡ 0)
unfolding start fails
Reachable-Agrees {n} begin = (start-Agrees n, total-replicate fails n refl)
Reachable-Agrees (then_step run step) =
    let (good, none_failed) = Reachable-Agrees run in
    (Step-Agrees step good, Step-fails step good none_failed)
