-- ===== src/Sharedmem/Block/Release.antt =====
-- `resetBlock` and `resetAllBlocks`, and what goes wrong around them.
use message_transport.Common.{
  ℕ, zero, suc, ◌+◌, ◌≤◌, ◌<◌, ◌≡◌, ◌≢◌, inl, inr, refl, ap, ◌∙◌, true, false, List, lt→ltb, ◌==◌,
  if◌then◌else◌, Bool-cases, ℕ_discrete, arith,
}
use message_transport.Sharedmem.Segment.{Segment, IsSegment}
use message_transport.Sharedmem.Descriptor.{Descriptor, key, reset}
use message_transport.Sharedmem.Block.State.{
  num_block, no_handle, is_valid, ok, out_of_bounds, Shared, Client, Others, find_block,
}
use message_transport.Sharedmem.Block.Operations.{
  reset_entry, reset_from, reset_block, reset_all_blocks,
}
use message_transport.Sharedmem.Block.Validity.{IsValid, update_same, update_ne}
use message_transport.Sharedmem.Block.Change.{drop-IsValid}
use message_transport.Sharedmem.Block.Lookup.{no_wait}
use message_transport.Sharedmem.Block.Access.{Quiet, Coherent, no_local_wait}

module _ (G : Segment) (laws : IsSegment G) where
  pub reset_entry-IsValid :
      (s : Shared G) (i : ℕ)
      → IsValid G s
      → i < num_block
      → (s.descriptors i).active_ ≡ true
      → IsValid G (reset_entry G i s)
  unfolding reset_entry reset
  reset_entry-IsValid s i valid lt a =
      drop-IsValid G valid i lt (reset (s.descriptors i))
        (G.destroy s.segment (key (s.descriptors i))) a refl refl
        (laws.find-destroy s.segment (key (s.descriptors i)))
        (laws.find-destroy_ne s.segment (key (s.descriptors i)))

  pub reset_entry_free :
      (s : Shared G) (i : ℕ) → ((reset_entry G i s).descriptors i).active_ ≡ false
  unfolding reset_entry reset
  reset_entry_free s i =
      ap (λ (d : Descriptor). d.active_) (update_same s.descriptors i (reset (s.descriptors i)))

  pub reset_entry_other :
      (s : Shared G) (i j : ℕ) → j ≢ i → (reset_entry G i s).descriptors j ≡ s.descriptors j
  unfolding reset_entry
  reset_entry_other s i j ne = update_ne s.descriptors i j (reset (s.descriptors i)) ne

  reset_step-IsValid :
      (s : Shared G) (i : ℕ)
      → IsValid G s
      → i < num_block
      → IsValid G (if (s.descriptors i).active_ then reset_entry G i s else s)
  reset_step-IsValid s i valid lt = elim (Bool-cases (s.descriptors i).active_) [
    | inl a ↦ rw a (reset_entry-IsValid s i valid lt a)
    | inr a ↦ rw a valid
  ]

  reset_step_free :
      (s : Shared G) (i : ℕ)
      → ((if (s.descriptors i).active_ then reset_entry G i s else s).descriptors i).active_ ≡ false
  reset_step_free s i = elim (Bool-cases (s.descriptors i).active_) [
    | inl a ↦ rw a (reset_entry_free s i)
    | inr a ↦ ground (arith, a)
  ]

  reset_step_other :
      (s : Shared G) (i j : ℕ)
      → j ≢ i
      → (if (s.descriptors i).active_ then reset_entry G i s else s).descriptors j ≡ s.descriptors j
  reset_step_other s i j ne = elim (Bool-cases (s.descriptors i).active_) [
    | inl a ↦ rw a (reset_entry_other s i j ne)
    | inr a ↦ rw a
  ]

  reset_from-IsValid :
      (n i : ℕ) (s : Shared G) → IsValid G s → i + n ≤ num_block → IsValid G (reset_from G n i s)
  unfolding reset_from
  reset_from-IsValid zero i s valid h = valid
  reset_from-IsValid (suc n) i s valid h =
      reset_from-IsValid n (suc i) _ (reset_step-IsValid s i valid (omega arith)) (omega arith)

  -- The loop leaves the entries in front of it alone, and frees those that it passes.
  reset_from_before :
      (n i j : ℕ) (s : Shared G) → j < i → (reset_from G n i s).descriptors j ≡ s.descriptors j
  unfolding reset_from
  reset_from_before zero i j s h = refl
  reset_from_before (suc n) i j s h =
      reset_from_before n (suc i) j _ (omega arith) ∙ reset_step_other s i j (λ e. omega arith)

  reset_from_free :
      (n i j : ℕ) (s : Shared G)
      → i ≤ j
      → j < i + n
      → ((reset_from G n i s).descriptors j).active_ ≡ false
  unfolding reset_from
  reset_from_free zero i j s h k = absurd (omega arith)
  reset_from_free (suc n) i j s h k = elim (ℕ_discrete j i) [
    | yes e ↦
        ap (λ (d : Descriptor). d.active_)
          (reset_from_before n (suc i) j
            (if (s.descriptors i).active_ then reset_entry G i s else s) (omega arith))
        ∙ rw e (reset_step_free s i)
    | no ne ↦ reset_from_free n (suc i) j _ (omega arith) (omega arith)
  ]

  -- `resetAllBlocks` on a valid table with no client registered frees every entry, and leaves no block
  -- in the segment under any name.
  pub reset_all_blocks_lem :
      (others : Others G) (s : Shared G)
      → IsValid G s
      → s.num_clients ≡ 0
      → ((i : ℕ) → i < num_block → ((reset_all_blocks G others s).descriptors i).active_ ≡ false)
        × ((n : List ℕ) → (G.find (reset_all_blocks G others s).segment n).first ≡ 0)
        × IsValid G (reset_all_blocks G others s)
  unfolding reset_all_blocks
  reset_all_blocks_lem others s valid quiet = rw (no_wait G others s quiet) (freed, nothing, after)
    where
      after : IsValid G (reset_from G num_block 0 s)
      after = reset_from-IsValid num_block 0 s valid (omega arith)

      freed : (i : ℕ) → i < num_block → ((reset_from G num_block 0 s).descriptors i).active_ ≡ false
      freed i lt = reset_from_free num_block 0 i s (omega arith) (omega arith)

      nothing : (n : List ℕ) → (G.find (reset_from G num_block 0 s).segment n).first ≡ 0
      nothing n = elim (ℕ_discrete (G.find (reset_from G num_block 0 s).segment n).first 0) [
        | yes e ↦ e
        | no there ↦ let (i, lt, a, k) = after.owned n there in cc (freed i lt, a)
      ]

  -- In a valid table where no client is registered with the manager or the block, `resetBlock` through
  -- a handle of an active entry, whose pointer holds where its count is the entry's, frees that entry and
  -- no other, leaves nothing in the segment under the block's name, takes the handle from the caller and
  -- keeps the table valid.
  pub reset_block_lem :
      (others : Others G) (c : Client G)
      → IsValid G c.shared
      → Quiet G c.shm.handle c.shared
      → Coherent G c.shm c.shared
      → (t : Shared G) × (reset_block G others c ≡ ok tt (record { shm = no_handle; shared = t }))
        × IsValid G t
        × ((t.descriptors c.shm.handle).active_ ≡ false)
        × ((j : ℕ) → j ≢ c.shm.handle → t.descriptors j ≡ c.shared.descriptors j)
        × ((find_block G c.shm.handle c.shared).first ≢ 0)
        × ((G.find t.segment (key (c.shared.descriptors c.shm.handle))).first ≡ 0)
  unfolding reset_block is_valid
  reset_block_lem others c valid quiet co =
      rw
        (
          no_local_wait G others c.shm.handle c.shared (quiet.local),
          no_wait G others c.shared (quiet.global),
          present,
          lt→ltb c.shm.handle num_block (co.inside),
        )
        (
          reset_entry G c.shm.handle c.shared,
          refl,
          reset_entry-IsValid c.shared c.shm.handle valid (co.inside) (co.active),
          reset_entry_free c.shared c.shm.handle,
          reset_entry_other c.shared c.shm.handle,
          (valid.backed c.shm.handle (co.inside) (co.active)).present,
          unfold reset_entry in
              laws.find-destroy c.shared.segment (key (c.shared.descriptors c.shm.handle)),
        )
    where
      present : (c.shm.ptr == 0) ≡ false
      present = ground (arith, co.there)

  -- With no handle, which `findHandle` returns for an unknown name, `resetBlock` does not get to its
  -- own test `is_valid`: it locks the mutex of entry 2^32 - 1 of the table first.
  pub reset_block-no_handle :
      (others : Others G) (s : Shared G)
      → reset_block G others (record { shm = no_handle; shared = s }) ≡ out_of_bounds
  unfolding reset_block
  reset_block-no_handle others s = refl
