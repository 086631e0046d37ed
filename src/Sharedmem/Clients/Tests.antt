-- ===== src/Sharedmem/Clients/Tests.antt =====
-- The theorems on clients at short runs of a few threads.
use message_transport.Common.{◌≡◌, inl, refl, true, false, [], ◌∷◌, ◌++◌}
use message_transport.Sharedmem.Clients.Phases.{
  rest, reading, checked, writing, new_monitor, silent, enter, start_writing, System, start,
  Reachable, begin, then_step,
}
use message_transport.Sharedmem.Clients.Totals.{in_block, holds_block, total}
use message_transport.Sharedmem.Clients.Counting.{fails, Agrees, Reachable-Agrees}
use message_transport.Sharedmem.Clients.Exclusion.{writer_alone}
use message_transport.Sharedmem.Clients.Progress.{is_idle, Proceeds, Reachable-Proceeds}
use message_transport.Sharedmem.Clients.Race.{writes_while_reading}

abbrev raced : System
raced = record {
  monitor = record { num_clients = 1; global_clients = 2; locked = true; global_locked = false };
  threads = rest ∷ writing true ∷ reading ∷ [];
}

writes_while_reading_example : Reachable 3 raced
writes_while_reading_example = writes_while_reading 0

Reachable-Agrees_example : Agrees raced × (total fails raced.threads ≡ 0)
Reachable-Agrees_example = Reachable-Agrees (writes_while_reading 0)

abbrev alone_inside : System
alone_inside = record {
  monitor = record { num_clients = 0; global_clients = 0; locked = true; global_locked = false };
  threads = checked false ∷ [];
}

abbrev alone_writing : System
alone_writing = record {
  monitor = record { num_clients = 0; global_clients = 1; locked = true; global_locked = false };
  threads = writing false ∷ [];
}

alone_run : Reachable 1 alone_writing
unfolding start new_monitor
alone_run =
    then_step {s = alone_inside}
      (then_step begin (record {
        before = [];
        after = [];
        mover = rest;
        moved = checked false;
        notice = silent;
        move = enter refl refl;
        was = refl;
        is = refl;
      }))
      (record {
        before = [];
        after = [];
        mover = checked false;
        moved = writing false;
        notice = silent;
        move = start_writing false refl;
        was = refl;
        is = refl;
      })

writer_alone_example :
    (total in_block alone_writing.threads ≡ 0) × (total holds_block ([] ++ []) ≡ 0)
writer_alone_example = writer_alone [] [] (writing false) alone_run refl (inl refl)

Reachable-Proceeds_example : Proceeds raced
unfolding is_idle
Reachable-Proceeds_example =
    Reachable-Proceeds (rest ∷ writing true ∷ []) [] reading (writes_while_reading 0) refl refl
