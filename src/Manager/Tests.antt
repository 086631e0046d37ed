-- ===== src/Manager/Tests.antt =====
-- The manager's program on a machine with one name, while one client allocates a block.
use message_transport.Common.{
  ℕ, ◌≡◌, refl, Bool, true, false, Option, none, some, List, [], ◌∷◌, ◌⊎◌, subst, sym, ap, arith,
}
use message_transport.Serialization.Scalars.{boolean}
use message_transport.Sharedmem.Descriptor.{name_of}
use message_transport.Sharedmem.Block.State.{Shared}
use message_transport.Sharedmem.Session.Directory.{Change, stored, directory}
use message_transport.Sharedmem.Session.Steps.{new_manager, IsSettled, allocated, Run, here, next}
use message_transport.Sharedmem.Tests.Slots.{Slot, slots, slots-IsSegment, find_slot}
use message_transport.Sharedmem.Tests.States.{alone, seven, seven_handle, blank_unused}
use message_transport.Sharedmem.Tests.Blocks.{filled, allocated_run}
use message_transport.Manager.{
  accepted, or_default, Objects, IsObjects, exited, uncaught, manager_main, manager_main_lem,
}

-- Whether there is an object of the one name that is used.
abbrev create_one : Bool → Option (Bool × List Slot)
create_one true = none
create_one false = some (true, [])

abbrev one_object : Objects slots
one_object = record {
  Table = Bool;
  exists = λ t n. t;
  remove = λ t n. false;
  create = λ t n size. create_one t;
  construct_manager = λ m. some m;
}

create_one_empty :
    (t t' : Bool) (m : List Slot)
    → create_one t ≡ some (t', m)
    → (k : List ℕ) → (find_slot m k).first ≡ 0
unfolding find_slot
create_one_empty true t' m e k = cc
create_one_empty false t' m e k = let same : [] ≡ m = ground (arith, e) in rw (← same) refl

same_memory : {m m' : List Slot} → some m ≡ some m' → m ≡ m'
same_memory e = ground (arith, e)

one_object-IsObjects : IsObjects slots one_object
one_object-IsObjects = record {
  exists-remove = λ t n. refl;
  create_empty = λ t t' n size m e k. create_one_empty t t' m e k;
  construct_manager_same = λ m m' e k. ap (λ x. find_slot x k) (sym (same_memory e));
}

abbrev no_slots : Option (List Slot)
no_slots = some []

-- What the client does from the manager in the memory `m`, which is the empty one.
run_from_new :
    (m : List Slot)
    → no_slots ≡ some m
    → (changes : List Change) × Run slots alone boolean
        (new_manager slots (λ i j. 0) m)
        changes
        filled
unfolding new_manager
run_from_new m e =
    subst
      (λ (x : List Slot).
        (changes : List Change) × Run slots alone boolean (new_manager slots (λ i j. 0) x) changes
          filled)
      (same_memory e)
      (
        stored (name_of seven) 16 ∷ [],
        next here (allocated seven 16 seven_handle (omega arith) allocated_run blank_unused refl),
      )

manager_main_lem_example :
    ((no_slots ≡ none)
      × (manager_main slots alone one_object
            (λ i j. 0)
            (λ s. filled)
            (accepted false none none)
            true
          ≡ uncaught true))
    ⊎ ((m : List Slot) × (u : Bool) × (s : Shared slots) × (no_slots ≡ some m)
        × (manager_main slots alone one_object
              (λ i j. 0)
              (λ s. filled)
              (accepted false none none)
              true
            ≡ exited 0 u (some s))
        × (u ≡ false)
        × IsSettled slots s
        × ((n : List ℕ) → directory slots s n ≡ none))
unfolding or_default
manager_main_lem_example =
    manager_main_lem slots alone one_object slots-IsSegment one_object-IsObjects boolean (λ i j. 0)
      (λ s. filled) none none true true [] refl run_from_new
