-- ===== src/Sharedmem/Session/Steps.antt =====
-- The calls of all clients one after the other, each with the change of the directory that it is for.
use message_transport.Common.{ℕ, ◌^◌, ◌<◌, ◌≡◌, ◌≢◌, Bool, true, List, [], ◌∷◌}
use message_transport.Serialization.Serializer.{Serializer}
use message_transport.Sharedmem.Names.{Chars}
use message_transport.Sharedmem.Segment.{Segment}
use message_transport.Sharedmem.Descriptor.{new_descriptor, key, name_of}
use message_transport.Sharedmem.Block.State.{num_block, ShmHandle, ok, Shared, Others}
use message_transport.Sharedmem.Block.Operations.{
  find_handle, allocate_block, reallocate_block, reset_block, reset_all_blocks,
}
use message_transport.Sharedmem.Block.Transfer.{serialize_message, wait_data}
use message_transport.Sharedmem.Block.Validity.{IsValid}
use message_transport.Sharedmem.Block.Access.{Coherent, NoRoom}
use message_transport.Sharedmem.Session.Directory.{
  Change, stored, dropped, emptied, kept, Directory, apply,
}

module _ (G : Segment) where
  -- The manager that `find_or_construct<SharedMemoryBlock>("Manager")` constructs; `m` is the memory
  -- after it, with the manager in it.
  unfoldable pub new_manager : (ℕ → Chars) → G.Memory → Shared G
  new_manager garbage m = record {
    num_clients = 0;
    descriptors = λ i. new_descriptor (garbage i);
    segment = m;
  }

  -- All entries are active under other names.
  abbrev pub IsFull : Chars → Shared G → Type 0
  IsFull name s =
      (i : ℕ)
      → i < num_block
      → ((s.descriptors i).active_ ≡ true) × (key (s.descriptors i) ≢ name_of name)

  -- Between two calls: the table agrees with the segment, and no client is registered anywhere.
  pub record IsSettled (s : Shared G) : Type 0 where
    pub valid : IsValid G s
    pub global : s.num_clients ≡ 0
    pub local : (i : ℕ) → (s.descriptors i).num_clients ≡ 0

  module _ (others : Others G) {T : Type 0} (S : Serializer T) where
    -- A call that returns, with the change that the state before it demands. What others do while it
    -- waits are steps of their own: a wait for data ends in the state in which it began.
    pub data Step (s t : Shared G) (change : Change) : Type 0 where
      allocated :
          (name : Chars) (size : ℕ) (shm : ShmHandle)
          → size < 2 ^ 32
          → allocate_block G others name size s ≡ ok shm t
          → ¬ IsFull name s
          → change ≡ stored (name_of name) size
          → Step s t change
      full :
          (name : Chars) (size : ℕ) (shm : ShmHandle)
          → size < 2 ^ 32
          → allocate_block G others name size s ≡ ok shm t
          → IsFull name s
          → change ≡ kept
          → Step s t change
      found :
          (name : Chars) (shm : ShmHandle)
          → find_handle G others name s ≡ ok shm t
          → change ≡ kept
          → Step s t change
      reallocated :
          (size : ℕ) (shm shm' : ShmHandle)
          → size < 2 ^ 32
          → Coherent G shm s
          → reallocate_block G others size (record { shm = shm; shared = s })
            ≡ ok tt (record { shm = shm'; shared = t })
          → ¬ NoRoom G shm.handle size s
          → change ≡ stored (key (s.descriptors shm.handle)) size
          → Step s t change
      given_up :
          (size : ℕ) (shm shm' : ShmHandle)
          → size < 2 ^ 32
          → Coherent G shm s
          → reallocate_block G others size (record { shm = shm; shared = s })
            ≡ ok tt (record { shm = shm'; shared = t })
          → NoRoom G shm.handle size s
          → change ≡ dropped (key (s.descriptors shm.handle))
          → Step s t change
      released :
          (shm shm' : ShmHandle)
          → Coherent G shm s
          → reset_block G others (record { shm = shm; shared = s })
            ≡ ok tt (record { shm = shm'; shared = t })
          → change ≡ dropped (key (s.descriptors shm.handle))
          → Step s t change
      cleared : t ≡ reset_all_blocks G others s → change ≡ emptied → Step s t change
      sent :
          (msg : T) (shm shm' : ShmHandle)
          → serialize_message G others S msg (record { shm = shm; shared = s })
            ≡ ok tt (record { shm = shm'; shared = t })
          → change ≡ kept
          → Step s t change
      received :
          (old : T) (shm shm' : ShmHandle) (answer : Bool × T)
          → others.arrival shm.handle s ≡ (s, answer.0)
          → wait_data G others S old (record { shm = shm; shared = s })
            ≡ ok answer (record { shm = shm'; shared = t })
          → change ≡ kept
          → Step s t change

    pub data Run (s : Shared G) : List Change → Shared G → Type 0 where
      here : Run s [] s
      next :
          {changes : List Change} {change : Change} {t u : Shared G}
          → Run s changes t
          → Step t u change
          → Run s (change ∷ changes) u

-- The last change is the first of the list.
unfoldable pub apply_all : List Change → Directory → Directory
apply_all [] d = d
apply_all (change ∷ changes) d = apply change (apply_all changes d)
