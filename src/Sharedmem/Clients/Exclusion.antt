-- ===== src/Sharedmem/Clients/Exclusion.antt =====
-- Who has the block's mutex without having waited for the clients is alone with the block.
use message_transport.Common.{
  ℕ, ◌+◌, ◌-◌, ◌≤◌, ◌≡◌, ◌≢◌, ◌⊎◌, refl, ap, ◌∙◌, false, List, [], ◌∷◌, ◌++◌, ℕ_discrete, arith,
}
use message_transport.Sharedmem.Clients.Phases.{
  Phase, checked, writing, finishing, waiting_inside, woken_inside, resizing, Monitor, Notice, hear,
  Move, listen, time_out, join, start_reading, stop_reading, stop_reading_fails, leave, leave_fails,
  enter, enter_waits, enter_again, start_writing, stop_writing, stop_writing_fails, signal, go_out,
  resize, resize_waits, resize_again, resized, manage, manage_waits, manage_again, managed,
  go_elsewhere, come_back, come_back_fails, System, Step, start, Reachable, begin, then_step,
}
use message_transport.Sharedmem.Clients.Totals.{
  in_block, holds_block, as_count, total, total-append, total-replicate, total-member, total-Step,
}
use message_transport.Sharedmem.Clients.Counting.{Agrees, Reachable-Agrees}

-- In possession of the block's mutex, without a wait in `check_clients`.
unfoldable pub unwaited : Phase → ℕ
unwaited (checked false) = 1
unwaited (writing false) = 1
unwaited (finishing false) = 1
unwaited (waiting_inside false) = 1
unwaited (woken_inside false) = 1
unwaited (resizing false) = 1
unwaited p = 0

unwaited-hear : (n : Notice) (p : Phase) → unwaited (hear n p) ≡ unwaited p
unfolding hear unwaited
unwaited-hear n p = ground arith

unwaited-holds : (p : Phase) → unwaited p ≤ holds_block p
unfolding unwaited holds_block
unwaited-holds p = ground arith

total_le : (f g : Phase → ℕ) (ps : List Phase) → ((p : Phase) → f p ≤ g p) → total f ps ≤ total g ps
unfolding total
total_le f g [] h = omega arith
total_le f g (p ∷ ps) h = omega (arith, h p, total_le f g ps h)

-- A move that brings someone in unwaited finds no client, and a client comes in only while the mutex
-- is free.
Move-unwaited :
    {m m' : Monitor} {p q : Phase} {n : Notice}
    → Move m p n m' q
    → (u u' : ℕ) → u' + unwaited p ≡ u + unwaited q
    → u ≤ as_count m.locked
    → unwaited p ≤ u
    → (m.num_clients ≢ 0 → u ≡ 0)
    → m'.num_clients ≢ 0
    → u' ≡ 0
unfolding unwaited as_count
Move-unwaited (listen e) u u' pays small has before after = ground arith
Move-unwaited (time_out e) u u' pays small has before after = ground arith
Move-unwaited (join e) u u' pays small has before after = ground arith
Move-unwaited (start_reading e) u u' pays small has before after = ground arith
Move-unwaited (stop_reading e h) u u' pays small has before after = ground arith
Move-unwaited (stop_reading_fails e h) u u' pays small has before after = ground arith
Move-unwaited (leave e h) u u' pays small has before after = ground arith
Move-unwaited (leave_fails e h) u u' pays small has before after = ground arith
Move-unwaited (enter e h) u u' pays small has before after = ground arith
Move-unwaited (enter_waits e h) u u' pays small has before after = ground arith
Move-unwaited (enter_again e) u u' pays small has before after = ground arith
Move-unwaited (start_writing w e) u u' pays small has before after = ground arith
Move-unwaited (stop_writing w e h) u u' pays small has before after = ground arith
Move-unwaited (stop_writing_fails w e h) u u' pays small has before after = ground arith
Move-unwaited (signal w) u u' pays small has before after = ground arith
Move-unwaited (go_out w) u u' pays small has before after = ground arith
Move-unwaited (resize w e h) u u' pays small has before after = ground arith
Move-unwaited (resize_waits w e h) u u' pays small has before after = ground arith
Move-unwaited (resize_again w e) u u' pays small has before after = ground arith
Move-unwaited (resized w) u u' pays small has before after = ground arith
Move-unwaited (manage e h) u u' pays small has before after = ground arith
Move-unwaited (manage_waits e h) u u' pays small has before after = ground arith
Move-unwaited (manage_again e) u u' pays small has before after = ground arith
Move-unwaited managed u u' pays small has before after = ground arith
Move-unwaited (go_elsewhere e) u u' pays small has before after = ground arith
Move-unwaited (come_back e h) u u' pays small has before after = ground arith
Move-unwaited (come_back_fails e h) u u' pays small has before after = ground arith

-- A client of the block excludes everyone who came in without waiting.
Excludes : System → Type 0
Excludes s = s.monitor.num_clients ≢ 0 → total unwaited s.threads ≡ 0

Step-Excludes : {s t : System} → Step s t → Agrees s → Excludes s → Excludes t
unfolding Excludes
Step-Excludes {s} {t} step good before someone =
    let u = total unwaited s.threads in
    let u' = u - unwaited step.mover + unwaited step.moved in
    let has : unwaited step.mover ≤ u = omega (
      arith,
      total-member unwaited step.before step.after step.mover,
      ap (total unwaited) step.was,
    ) in
    let small : u ≤ as_count s.monitor.locked =
      omega (arith, total_le unwaited holds_block s.threads unwaited-holds, good.lock) in
    let pays : u' + unwaited step.mover ≡ u + unwaited step.moved = omega (arith, has) in
    total-Step unwaited step u u' unwaited-hear pays refl
    ∙ Move-unwaited step.move u u' pays small has before someone

Reachable-Excludes : {n : ℕ} {s : System} → Reachable n s → Excludes s
unfolding Excludes start unwaited
Reachable-Excludes {n} begin = λ someone. total-replicate unwaited n refl
Reachable-Excludes (then_step run step) =
    Step-Excludes step (Reachable-Agrees run).0 (Reachable-Excludes run)

-- After any steps of any number of threads: while a thread writes or resizes that found no client
-- when it came in, no thread is registered with the block, so no reader is between its registration
-- and its leaving; and no other thread holds the block's mutex.
pub writer_alone :
    {n : ℕ} {s : System} (before after : List Phase) (p : Phase)
    → Reachable n s
    → s.threads ≡ before ++ (p ∷ after)
    → (p ≡ writing false) ⊎ (p ≡ resizing false)
    → (total in_block s.threads ≡ 0) × (total holds_block (before ++ after) ≡ 0)
unfolding Excludes unwaited holds_block as_count total
writer_alone {n} {s} before after p run here alone =
    let good = (Reachable-Agrees run).0 in
    let excludes = Reachable-Excludes run in
    let weight : (unwaited p ≡ 1) × (holds_block p ≡ 1) = ground (arith, alone) in
    let parts = total-append holds_block before after in
    let all = total-append holds_block before (p ∷ after) in
    let mine : 1 ≤ total unwaited s.threads =
      omega (arith, weight.0, total-member unwaited before after p, ap (total unwaited) here) in
    let free : s.monitor.num_clients ≡ 0 = elim (ℕ_discrete s.monitor.num_clients 0) [
      | yes e ↦ e
      | no some_client ↦ absurd (omega (arith, excludes some_client, mine))
    ] in
    let lock : total holds_block s.threads ≤ 1 = ground (arith, good.lock) in
    (good.clients ∙ free, omega (arith, weight.1, parts, all, lock, ap (total holds_block) here))
