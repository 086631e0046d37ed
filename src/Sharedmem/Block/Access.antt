-- ===== src/Sharedmem/Block/Access.antt =====
-- Who may enter a block, which handles may be used, and what `reallocateBlock` has to leave.
use message_transport.Common.{ℕ, ◌<◌, ◌≡◌, ◌≢◌, ◌⊎◌, true, false, none, arith}
use message_transport.Sharedmem.Segment.{Segment}
use message_transport.Sharedmem.Descriptor.{key}
use message_transport.Sharedmem.Block.State.{
  num_block, ShmHandle, no_handle, Shared, Client, Others, find_block, check_clients,
}
use message_transport.Sharedmem.Block.Validity.{IsValid}
use message_transport.Sharedmem.Block.Resize.{IsCurrent, HasSize}

module _ (G : Segment) where
  -- No wait on the way into a block: no client is registered, with the manager or with the block.
  pub record Quiet (i : ℕ) (s : Shared G) : Type 0 where
    pub global : s.num_clients ≡ 0
    pub local : (s.descriptors i).num_clients ≡ 0

  -- A handle of an active entry, with a pointer that holds where its count is the entry's.
  pub record Coherent (shm : ShmHandle) (s : Shared G) : Type 0 where
    pub inside : shm.handle < num_block
    pub active : (s.descriptors shm.handle).active_ ≡ true
    pub there : shm.ptr ≢ 0
    pub pointer :
        shm.resize_count ≡ (s.descriptors shm.handle).resize_count_
        → shm.ptr ≡ (find_block G shm.handle s).first

  pub no_local_wait :
      (others : Others G) (i : ℕ) (s : Shared G)
      → (s.descriptors i).num_clients ≡ 0
      → check_clients G others i s ≡ s
  unfolding check_clients
  no_local_wait others i s quiet = ground (arith, quiet)

  -- The block has fewer bytes than `size`, and once it is destroyed, the segment has no `size` bytes.
  abbrev pub NoRoom : ℕ → ℕ → Shared G → Type 0
  NoRoom i size s =
      ((s.descriptors i).allocated_ < size)
      × (G.construct (G.destroy s.segment (key (s.descriptors i))) (key (s.descriptors i)) size
          ≡ none)

  -- How `reallocateBlock` leaves the entry `i`: with a current handle and the size, or, where there
  -- is no room and only there, given up. The other entries stay as they were.
  pub record Resized (i size : ℕ) (s : Shared G) (c : Client G) : Type 0 where
    pub valid : IsValid G c.shared
    pub elsewhere : (j : ℕ) → j ≢ i → c.shared.descriptors j ≡ s.descriptors j
    pub result :
        (IsCurrent G c.shm c.shared
          × (c.shm.handle ≡ i)
          × HasSize G i size c.shared
          × ¬ NoRoom i size s)
        ⊎ ((c.shm ≡ no_handle) × ((c.shared.descriptors i).active_ ≡ false) × NoRoom i size s)
    pub clients :
        (c.shared.num_clients ≡ s.num_clients)
        × ((c.shared.descriptors i).num_clients ≡ (s.descriptors i).num_clients)
    pub named :
        (c.shared.descriptors i).active_ ≡ true
        → key (c.shared.descriptors i) ≡ key (s.descriptors i)
    -- An object that moved shows in the count.
    pub steady :
        (c.shared.descriptors i).active_ ≡ true
        → (c.shared.descriptors i).resize_count_ ≡ (s.descriptors i).resize_count_
        → (find_block G i c.shared).first ≡ (find_block G i s).first
