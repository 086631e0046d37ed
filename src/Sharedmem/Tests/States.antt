-- ===== src/Sharedmem/Tests/States.antt =====
-- A table without blocks, and one with a block of 16 bytes for the name "7".
use message_transport.Common.{refl, true, List, [], ◌∷◌, replicate, ◌==◌, if◌then◌else◌, arith}
use message_transport.Sharedmem.Names.{Chars, c_string}
use message_transport.Sharedmem.Descriptor.{Descriptor, new_descriptor}
use message_transport.Sharedmem.Block.State.{ShmHandle, Shared, Client, Others, set_descriptor}
use message_transport.Sharedmem.Block.Validity.{IsValid}
use message_transport.Sharedmem.Block.Change.{fill-IsValid}
use message_transport.Sharedmem.Block.Resize.{IsCurrent}
use message_transport.Sharedmem.Block.Access.{Quiet, Coherent}
use message_transport.Sharedmem.Session.Steps.{IsFull, IsSettled}
use message_transport.Sharedmem.Tests.Slots.{Slot, slots, add_slot, add_ne, find_slot, same_name}

-- Nobody else is there, and data always arrive.
abbrev pub alone : Others slots
alone = record { global = λ s. s; local = λ i s. s; arrival = λ i s. (s, true) }

abbrev pub seven : Chars
seven i = if i == 0 then 55 else 0

abbrev pub blank : Shared slots
blank = record { num_clients = 0; descriptors = λ i. new_descriptor (λ j. 0); segment = [] }

pub blank-IsValid : IsValid slots blank
unfolding new_descriptor find_slot
blank-IsValid = record {
  backed = λ i lt a. cc;
  distinct = λ i j li lj a. cc;
  idle = λ i lt a. refl;
  owned = λ n there. absurd (there refl);
}

pub blank-IsSettled : IsSettled slots blank
unfolding new_descriptor
blank-IsSettled = record { valid = blank-IsValid; global = refl; local = λ i. refl }

pub blank_unused : ¬ IsFull slots seven blank
unfolding new_descriptor
blank_unused crowded = let (active, _) = crowded 0 (omega arith) in cc active

abbrev pub seven_entry : Descriptor
seven_entry = record {
  num_clients = 0;
  size_ = 16;
  allocated_ = 16;
  resize_count_ = 1;
  active_ = true;
  name_ = seven;
}

abbrev pub seven_slots : List Slot
seven_slots = record { live = true; name = 55 ∷ []; content = replicate 16 0 } ∷ []

abbrev pub one_block : Shared slots
one_block = set_descriptor slots 0 seven_entry (record blank { segment = seven_slots })

pub one_block-IsValid : IsValid slots one_block
unfolding new_descriptor find_slot same_name c_string add_slot
one_block-IsValid =
    fill-IsValid slots blank-IsValid 0 (omega arith) seven_entry seven_slots refl
      (record { present = omega arith; counted = refl; sized = omega arith; narrow = omega arith })
      (λ n ne. add_ne [] (55 ∷ []) n 16 ne) (λ j lt ne a. cc) (λ a. cc)

abbrev pub seven_handle : ShmHandle
seven_handle = record { handle = 0; ptr = 1; resize_count = 1 }

abbrev pub publisher : Client slots
publisher = record { shm = seven_handle; shared = one_block }

pub publisher-Quiet : Quiet slots 0 one_block
publisher-Quiet = record { global = refl; local = refl }

pub publisher-IsCurrent : IsCurrent slots seven_handle one_block
unfolding find_slot same_name c_string
publisher-IsCurrent = record {
  inside = omega arith;
  active = refl;
  there = omega arith;
  pointer = refl;
  count = refl;
}

pub publisher-Coherent : Coherent slots seven_handle one_block
publisher-Coherent = record {
  inside = omega arith;
  active = refl;
  there = omega arith;
  pointer = λ e. publisher-IsCurrent.pointer;
}
