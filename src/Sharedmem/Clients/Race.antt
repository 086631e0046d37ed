-- ===== src/Sharedmem/Clients/Race.antt =====
-- What is left of the exclusion when a thread had to wait in `check_clients`, which does not look again.
use message_transport.Common.{
  ℕ, zero, suc, ◌≡◌, refl, Bool, true, false, [], ◌∷◌, map, replicate, arith,
}
use message_transport.Sharedmem.Clients.Phases.{
  Phase, rest, listening, signalled, joining, reading, left, blocked, woken, checked, writing,
  finishing, Monitor, new_monitor, Notice, hear, at_zero, Move, listen, join, start_reading,
  stop_reading, leave, enter, enter_waits, enter_again, start_writing, stop_writing, signal, System,
  Step, start, Reachable, begin, then_step,
}

map-hear : (n : Notice) (k : ℕ) → map (hear n) (replicate k rest) ≡ replicate k rest
unfolding hear
map-hear n zero = refl
map-hear n (suc k) = rw (map-hear n k) (ground arith)

-- Three threads and some that stay outside.
abbrev three : (k : ℕ) → Monitor → Phase → Phase → Phase → System
three k m a b c = record { monitor = m; threads = a ∷ b ∷ c ∷ replicate k rest }

abbrev counts : ℕ → ℕ → Bool → Monitor
counts c g l = record { num_clients = c; global_clients = g; locked = l; global_locked = false }

module _ (k : ℕ) {m m' : Monitor} {n : Notice} (a b c : Phase) {q : Phase} where
  first : Move m a n m' q → Step (three k m a b c) (three k m' q (hear n b) (hear n c))
  first move = record {
    before = [];
    after = b ∷ c ∷ replicate k rest;
    mover = a;
    moved = q;
    notice = n;
    move = move;
    was = refl;
    is = rw (map-hear n k) refl;
  }

  second : Move m b n m' q → Step (three k m a b c) (three k m' (hear n a) q (hear n c))
  second move = record {
    before = a ∷ [];
    after = c ∷ replicate k rest;
    mover = b;
    moved = q;
    notice = n;
    move = move;
    was = refl;
    is = rw (map-hear n k) refl;
  }

  third : Move m c n m' q → Step (three k m a b c) (three k m' (hear n a) (hear n b) q)
  third move = record {
    before = a ∷ b ∷ [];
    after = replicate k rest;
    mover = c;
    moved = q;
    notice = n;
    move = move;
    was = refl;
    is = rw (map-hear n k) refl;
  }

-- Two readers that were notified, no client.
both_notified :
    (k : ℕ) → Reachable (suc (suc (suc k))) (three k (counts 0 0 false) signalled rest signalled)
unfolding start new_monitor hear at_zero
both_notified k =
    then_step
      (then_step
        (then_step
          (then_step
            (then_step (then_step begin (first k rest rest rest (listen refl)))
              (third k listening rest rest (listen refl)))
            (second k listening rest listening (enter refl refl)))
          (second k listening (checked false) listening (start_writing false refl)))
        (second k listening (writing false) listening (stop_writing false refl (omega arith))))
      (second k listening (finishing false) listening (signal false))

-- The first reads and leaves while a writer waits; then the writer is notified, and the second comes
-- in before it.
overtaken : (k : ℕ) → Reachable (suc (suc (suc k))) (three k (counts 1 1 false) rest woken reading)
unfolding hear at_zero
overtaken k =
    then_step
      (then_step
        (then_step
          (then_step
            (then_step
              (then_step
                (then_step (both_notified k) (first k signalled rest signalled (join refl)))
                (first k joining rest signalled (start_reading refl)))
              (second k reading rest signalled (enter_waits refl (omega arith))))
            (first k reading blocked signalled (stop_reading refl (omega arith))))
          (first k left blocked signalled (leave refl (omega arith))))
        (third k rest woken signalled (join refl)))
      (third k rest woken joining (start_reading refl))

-- With any number of threads from three on, a writer can write while a reader reads, and does so with
-- the block's mutex: the writer waited for a first reader, and when that one leaves, a second comes in
-- before the writer, which does not look at the counter again.
pub writes_while_reading :
    (k : ℕ)
    → Reachable (suc (suc (suc k))) (record {
      monitor = record {
        num_clients = 1;
        global_clients = 2;
        locked = true;
        global_locked = false;
      };
      threads = rest ∷ writing true ∷ reading ∷ replicate k rest;
    })
unfolding hear
writes_while_reading k =
    then_step (then_step (overtaken k) (second k rest woken reading (enter_again refl)))
      (second k rest (checked true) reading (start_writing true refl))
