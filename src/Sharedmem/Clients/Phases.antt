-- ===== src/Sharedmem/Clients/Phases.antt =====
-- What the threads that use one block do to its mutex and counter and to those of the manager:
-- `wait_data`, `serialize`, `reallocateBlock`, `resetBlock`, and the calls that take the manager's
-- mutex alone. Clients of other blocks count with the manager only. A wait on a condition ends with
-- `notify_all`, and the wait for data also in time. Calls that throw are left out.
use message_transport.Common.{
  ℕ, ◌+◌, ◌-◌, ◌≡◌, ◌≢◌, Bool, true, false, List, ◌∷◌, ◌++◌, map, replicate, ◌==◌, if◌then◌else◌,
}

-- A flag says whether the thread waited in `check_clients` on its way in.
pub data Phase : Type 0 where
  -- outside, waiting on `datacond`, notified, registered with the block, with both, with the block
  rest listening signalled joining reading left : Phase
  -- waiting on `lockcond`, notified
  blocked woken : Phase
  -- past `check_clients` with the block's mutex, registered with the manager to write, done writing
  checked writing finishing : Bool → Phase
  -- with the block's mutex: waiting on `cond`, notified, with the manager's mutex too
  waiting_inside woken_inside resizing : Bool → Phase
  -- with no block: waiting on `cond`, notified, with the manager's mutex
  waiting_outside woken_outside managing : Phase
  -- registered with the manager through another block
  elsewhere : Phase
  -- an assertion on a counter failed
  failed : Phase

pub record Monitor : Type 0 where
  pub num_clients : ℕ
  pub global_clients : ℕ
  pub locked : Bool
  pub global_locked : Bool

unfoldable pub new_monitor : Monitor
new_monitor = record { num_clients = 0; global_clients = 0; locked = false; global_locked = false }

pub data Notice : Type 0 where
  silent data_signalled block_freed manager_freed : Notice

-- `notify_all` on the condition of the notice.
unfoldable pub hear : Notice → Phase → Phase
hear data_signalled listening = signalled
hear block_freed blocked = woken
hear manager_freed (waiting_inside w) = woken_inside w
hear manager_freed waiting_outside = woken_outside
hear n p = p

-- The notice of a decrement.
unfoldable pub at_zero : ℕ → Notice → Notice
at_zero n notice = if n == 0 then notice else silent

-- One thread takes a mutex, and what it does until it waits for another or lets go.
pub data Move (m : Monitor) : Phase → Notice → Monitor → Phase → Type 0 where
  listen : m.locked ≡ false → Move m rest silent m listening
  time_out : m.locked ≡ false → Move m listening silent m rest
  join :
      m.locked ≡ false
      → Move m signalled silent
          (record m { num_clients = m.num_clients + 1; locked = true })
          joining
  start_reading :
      m.global_locked ≡ false
      → Move m joining silent
          (record m { global_clients = m.global_clients + 1; locked = false })
          reading
  stop_reading :
      m.global_locked ≡ false
      → m.global_clients ≢ 0
      → Move m reading
          (at_zero (m.global_clients - 1) manager_freed)
          (record m { global_clients = m.global_clients - 1 })
          left
  stop_reading_fails :
      m.global_locked ≡ false → m.global_clients ≡ 0 → Move m reading silent m failed
  leave :
      m.locked ≡ false
      → m.num_clients ≢ 0
      → Move m left
          (at_zero (m.num_clients - 1) block_freed)
          (record m { num_clients = m.num_clients - 1 })
          rest
  leave_fails : m.locked ≡ false → m.num_clients ≡ 0 → Move m left silent m failed
  enter :
      m.locked ≡ false
      → m.num_clients ≡ 0
      → Move m rest silent (record m { locked = true }) (checked false)
  enter_waits : m.locked ≡ false → m.num_clients ≢ 0 → Move m rest silent m blocked
  enter_again : m.locked ≡ false → Move m woken silent (record m { locked = true }) (checked true)
  start_writing :
      (w : Bool)
      → m.global_locked ≡ false
      → Move m (checked w) silent (record m { global_clients = m.global_clients + 1 }) (writing w)
  stop_writing :
      (w : Bool)
      → m.global_locked ≡ false
      → m.global_clients ≢ 0
      → Move m
          (writing w)
          (at_zero (m.global_clients - 1) manager_freed)
          (record m { global_clients = m.global_clients - 1 })
          (finishing w)
  stop_writing_fails :
      (w : Bool)
      → m.global_locked ≡ false
      → m.global_clients ≡ 0
      → Move m (writing w) silent m failed
  signal : (w : Bool) → Move m (finishing w) data_signalled (record m { locked = false }) rest
  go_out : (w : Bool) → Move m (checked w) silent (record m { locked = false }) rest
  resize :
      (w : Bool)
      → m.global_locked ≡ false
      → m.global_clients ≡ 0
      → Move m (checked w) silent (record m { global_locked = true }) (resizing w)
  resize_waits :
      (w : Bool)
      → m.global_locked ≡ false
      → m.global_clients ≢ 0
      → Move m (checked w) silent m (waiting_inside w)
  resize_again :
      (w : Bool)
      → m.global_locked ≡ false
      → Move m (woken_inside w) silent (record m { global_locked = true }) (resizing w)
  resized : (w : Bool) → Move m (resizing w) silent (record m { global_locked = false }) (checked w)
  manage :
      m.global_locked ≡ false
      → m.global_clients ≡ 0
      → Move m rest silent (record m { global_locked = true }) managing
  manage_waits :
      m.global_locked ≡ false → m.global_clients ≢ 0 → Move m rest silent m waiting_outside
  manage_again :
      m.global_locked ≡ false
      → Move m woken_outside silent (record m { global_locked = true }) managing
  managed : Move m managing silent (record m { global_locked = false }) rest
  go_elsewhere :
      m.global_locked ≡ false
      → Move m rest silent (record m { global_clients = m.global_clients + 1 }) elsewhere
  come_back :
      m.global_locked ≡ false
      → m.global_clients ≢ 0
      → Move m elsewhere
          (at_zero (m.global_clients - 1) manager_freed)
          (record m { global_clients = m.global_clients - 1 })
          rest
  come_back_fails :
      m.global_locked ≡ false → m.global_clients ≡ 0 → Move m elsewhere silent m failed

pub record System : Type 0 where
  pub monitor : Monitor
  pub threads : List Phase

-- A move of one thread, which the others may hear of.
pub record Step (s t : System) : Type 0 where
  pub before : List Phase
  pub after : List Phase
  pub mover : Phase
  pub moved : Phase
  pub notice : Notice
  pub move : Move s.monitor mover notice t.monitor moved
  pub was : s.threads ≡ before ++ (mover ∷ after)
  pub is : t.threads ≡ map (hear notice) before ++ (moved ∷ map (hear notice) after)

unfoldable pub start : ℕ → System
start n = record { monitor = new_monitor; threads = replicate n rest }

-- From `n` threads that are all outside.
pub data Reachable (n : ℕ) : System → Type 0 where
  begin : Reachable n (start n)
  then_step : {s t : System} → Reachable n s → Step s t → Reachable n t
