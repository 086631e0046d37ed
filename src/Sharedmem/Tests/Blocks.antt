-- ===== src/Sharedmem/Tests/Blocks.antt =====
-- The theorems on blocks, each at a table of one block or none.
use message_transport.Common.{
  ℕ, ◌<◌, ◌≡◌, ◌≢◌, ◌⊎◌, refl, true, false, List, [], ◌∷◌, replicate, arith,
}
use message_transport.Sharedmem.Names.{c_string, strncmp_eq, copy_chars}
use message_transport.Sharedmem.Descriptor.{
  new_descriptor, record_size, allocate, match_name, key, name_of, reset,
}
use message_transport.Sharedmem.Block.State.{
  num_block, ShmHandle, no_handle, ok, bad_alloc, aborted, Shared, Client, first_index,
  set_descriptor, find_block, check_global_clients,
}
use message_transport.Sharedmem.Block.Operations.{
  find_handle, allocate_block, place_block, new_block, reset_block, reset_all_blocks, reset_entry,
  reallocate_block, is_stale,
}
use message_transport.Sharedmem.Block.Validity.{IsValid}
use message_transport.Sharedmem.Block.Resize.{IsCurrent}
use message_transport.Sharedmem.Block.Lookup.{
  Answers, allocate_block-Answers, find_handle_cases, find_handle-allocate_block,
}
use message_transport.Sharedmem.Block.Reallocate.{reallocate_block-Resized}
use message_transport.Sharedmem.Block.Access.{Resized}
use message_transport.Sharedmem.Block.Release.{reset_all_blocks_lem, reset_block_lem}
use message_transport.Sharedmem.Block.Failures.{old_handle_unnoticed, bad_alloc_leaves_entry}
use message_transport.Sharedmem.Tests.Slots.{
  slots, slots-IsSegment, construct_slot, add_slot, destroy_slot, find_slot, same_name,
}
use message_transport.Sharedmem.Tests.States.{
  alone, seven, blank, blank-IsValid, seven_slots, one_block, one_block-IsValid, seven_handle,
  publisher, publisher-Quiet, publisher-Coherent,
}

abbrev pub filled : Shared slots
filled =
    set_descriptor slots 0 (record_size 16 16 (allocate seven (blank.descriptors 0)))
      (record blank { segment = seven_slots })

pub allocated_run : allocate_block slots alone seven 16 blank ≡ ok seven_handle filled
unfolding allocate_block check_global_clients place_block first_index new_block new_descriptor
    record_size allocate c_string copy_chars construct_slot add_slot match_name strncmp_eq
allocated_run = refl

allocate_block-Answers_example : Answers slots blank seven 16 seven_handle filled
allocate_block-Answers_example =
    allocate_block-Answers slots slots-IsSegment alone seven 16 blank blank-IsValid refl
      (omega arith) allocated_run

find_handle_cases_example :
    ((shm : ShmHandle) × (find_handle slots alone seven one_block ≡ ok shm one_block)
      × IsCurrent slots shm one_block
      × (key (one_block.descriptors shm.handle) ≡ name_of seven))
    ⊎ ((find_handle slots alone seven one_block ≡ ok no_handle one_block)
        × ((i : ℕ)
            → i < num_block
            → (one_block.descriptors i).active_ ≡ true
            → key (one_block.descriptors i) ≢ name_of seven))
find_handle_cases_example =
    find_handle_cases slots slots-IsSegment alone seven one_block one_block-IsValid refl

find_handle-allocate_block_example : find_handle slots alone seven filled ≡ ok seven_handle filled
find_handle-allocate_block_example =
    find_handle-allocate_block slots slots-IsSegment alone seven 16 blank blank-IsValid refl
      (omega arith) allocated_run (λ e. ground (arith, e)) refl

reallocate_block-Resized_example :
    (c : Client slots) × (reallocate_block slots alone 20 publisher ≡ ok tt c)
    × Resized slots 0 20 one_block c
reallocate_block-Resized_example =
    reallocate_block-Resized slots slots-IsSegment alone 20 (omega arith) publisher
      one_block-IsValid publisher-Quiet publisher-Coherent

reset_all_blocks_lem_example :
    ((i : ℕ)
      → i < num_block
      → ((reset_all_blocks slots alone one_block).descriptors i).active_ ≡ false)
    × ((n : List ℕ) → (find_slot (reset_all_blocks slots alone one_block).segment n).first ≡ 0)
    × IsValid slots (reset_all_blocks slots alone one_block)
reset_all_blocks_lem_example =
    reset_all_blocks_lem slots slots-IsSegment alone one_block one_block-IsValid refl

reset_block_lem_example :
    (t : Shared slots) × (reset_block slots alone publisher
      ≡ ok tt (record { shm = no_handle; shared = t }))
    × IsValid slots t
    × ((t.descriptors 0).active_ ≡ false)
    × ((j : ℕ) → j ≢ 0 → t.descriptors j ≡ one_block.descriptors j)
    × ((find_block slots 0 one_block).first ≢ 0)
    × ((find_slot t.segment (key (one_block.descriptors 0))).first ≡ 0)
reset_block_lem_example =
    reset_block_lem slots slots-IsSegment alone publisher one_block-IsValid publisher-Quiet
      publisher-Coherent

abbrev renewed : Shared slots
renewed =
    set_descriptor slots 0
      (record_size 16 16 (allocate seven ((reset_entry slots 0 one_block).descriptors 0)))
      (record (reset_entry slots 0 one_block) {
        segment =
            record { live = false; name = 55 ∷ []; content = replicate 16 0 }
            ∷ record { live = true; name = 55 ∷ []; content = replicate 16 0 }
            ∷ [];
      })

renewed_run :
    new_block slots 0 seven 16 (reset_entry slots 0 one_block)
    ≡ ok (record { handle = 0; ptr = 2; resize_count = 1 }) renewed
unfolding new_block reset_entry reset record_size allocate c_string copy_chars construct_slot
    add_slot destroy_slot same_name
renewed_run = refl

old_handle_unnoticed_example : is_stale slots seven_handle renewed ≡ false
old_handle_unnoticed_example =
    old_handle_unnoticed slots slots-IsSegment seven 16 one_block seven_handle (omega arith) refl
      renewed_run

bad_alloc_leaves_entry_example :
    (t : Shared slots) × (allocate_block slots alone seven 1001 blank ≡ bad_alloc t)
    × (find_handle slots alone seven t ≡ aborted)
unfolding new_descriptor construct_slot
bad_alloc_leaves_entry_example =
    bad_alloc_leaves_entry slots slots-IsSegment alone seven 1001 blank blank-IsValid refl
      (omega arith) (omega arith) (λ j lt a. cc) 0 (omega arith) refl refl
