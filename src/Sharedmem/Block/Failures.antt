-- ===== src/Sharedmem/Block/Failures.antt =====
-- Two ways in which the table and the segment come apart.
use message_transport.Common.{
  ℕ, ◌^◌, ◌<◌, ◌≡◌, ◌≢◌, inl, inr, refl, ap, ◌∙◌, true, false, none, lt→ltb, Option-cases,
  ℕ_discrete, arith,
}
use message_transport.Sharedmem.Names.{Chars}
use message_transport.Sharedmem.Segment.{Segment, IsSegment}
use message_transport.Sharedmem.Descriptor.{
  Descriptor, key, name_of, record_size, allocate, reset, match_name_iff, key-allocate,
}
use message_transport.Sharedmem.Block.State.{
  num_block, ShmHandle, ok, bad_alloc, aborted, OnOk, on_ok, first_index, Shared, Others,
  set_descriptor, find_block,
}
use message_transport.Sharedmem.Block.Operations.{
  has_name, is_free, is_stale, reset_entry, new_block, connect_block, place_block, search_table,
  allocate_block, find_handle,
}
use message_transport.Sharedmem.Block.Validity.{
  IsValid, first_index-some, first_index-none, update_same, update_ne,
}
use message_transport.Sharedmem.Block.Allocate.{
  has_name-Named, is_free-inactive, is_free-active, no_object,
}
use message_transport.Sharedmem.Block.Lookup.{no_wait}

module _ (G : Segment) (laws : IsSegment G) where
  reset_then_new :
      (name : Chars) (size : ℕ) (s : Shared G) (i : ℕ) (old : ShmHandle)
      → 0 < size
      → old.handle ≡ i
      → old.resize_count ≡ 1
      → OnOk (new_block G i name size (reset_entry G i s)) (λ shm t. is_stale G old t ≡ false)
  unfolding new_block
  reset_then_new name size s i old pos e one =
      elim (Option-cases (G.construct (reset_entry G i s).segment (key filled) size)) [
        | inl refused ↦ rw (refused, OnOk) tt
        | inr ((m, p), made) ↦
            rw (made, OnOk, e, update_same (reset_entry G i s).descriptors i filled, one, counted)
              refl
      ]
    where
      filled : Descriptor
      filled = record_size size size (allocate name ((reset_entry G i s).descriptors i))

      counted : filled.resize_count_ ≡ 1
      counted = unfold record_size allocate reset_entry reset in ground (arith, lt→ltb 0 size pos)

  -- A handle from the first life of an entry, with count 1, is taken for up to date once the entry has
  -- been reset and given to a name again, whatever the name: its count is then 1 again.
  pub old_handle_unnoticed :
      (name : Chars) (size : ℕ) (s : Shared G) (old : ShmHandle) {shm : ShmHandle} {t : Shared G}
      → 0 < size
      → old.resize_count ≡ 1
      → new_block G old.handle name size (reset_entry G old.handle s) ≡ ok shm t
      → is_stale G old t ≡ false
  old_handle_unnoticed name size s old pos one e =
      on_ok (λ shm t. is_stale G old t ≡ false)
        (new_block G old.handle name size (reset_entry G old.handle s))
        (reset_then_new name size s old.handle old pos refl one) e

  module _ (others : Others G) (name : Chars) (size : ℕ) (s : Shared G) (valid : IsValid G s)
      (quiet : s.num_clients ≡ 0) (pos : 0 < size) (wide : size < 2 ^ 32)
      (unused : (j : ℕ)
        → j < num_block
        → (s.descriptors j).active_ ≡ true
        → key (s.descriptors j) ≢ name_of name) where
    no_match : first_index (has_name G name s) num_block 0 ≡ none
    no_match = elim (Option-cases (first_index (has_name G name s) num_block 0)) [
      | inl e ↦ e
      | inr (j, e) ↦
          let (hit, _, lt) = first_index-some (has_name G name s) num_block 0 j e in
          let (a, k) = has_name-Named G laws name s j hit in absurd (unused j lt a k)
    ]

    module _ (i : ℕ) (lt : i < num_block) where
      abbrev orphan : Descriptor
      orphan = record_size size size (allocate name (s.descriptors i))

      abbrev orphaned : Shared G
      orphaned = set_descriptor G i orphan s

      orphan_facts : (orphan.size_ ≡ size) × (orphan.active_ ≡ true) × (key orphan ≡ name_of name)
      orphan_facts = (
        unfold record_size in refl,
        unfold record_size allocate in refl,
        unfold record_size in key-allocate name (s.descriptors i),
      )

      at_entry : orphaned.descriptors i ≡ orphan
      at_entry = update_same s.descriptors i orphan

      orphan_hit : has_name G name orphaned i ≡ true
      orphan_hit =
          rw at_entry
            (ground (arith, orphan_facts, (match_name_iff name orphan).1 (orphan_facts.2)))

      only_orphan :
          (free : (s.descriptors i).active_ ≡ false) (j : ℕ)
          → j < num_block
          → has_name G name orphaned j ≡ true
          → j ≡ i
      only_orphan free j ltj hit = elim (ℕ_discrete j i) [
        | yes e ↦ e
        | no ne ↦
            let (a, k) = has_name-Named G laws name orphaned j hit in
            let same = update_ne s.descriptors i j orphan ne in
            absurd (unused j ltj (rw same at a) (rw same at k))
      ]

      orphan_aborts :
          (free : (s.descriptors i).active_ ≡ false) → connect_block G i orphaned ≡ aborted
      unfolding connect_block
      orphan_aborts free = rw (
        lt→ltb i num_block lt,
        absent,
        lt→ltb 0 (orphaned.descriptors i).size_ (rw (at_entry, orphan_facts.0) pos),
      )
        where
          absent : (find_block G i orphaned).second ≡ 0
          absent =
              ap (λ (d : Descriptor). (G.find s.segment (key d)).second) at_entry
              ∙ laws.find_absent s.segment (key orphan)
                  (rw (orphan_facts.2) (no_object G laws valid i lt free name unused size wide))

      orphan_looked_up :
          (free : (s.descriptors i).active_ ≡ false) → search_table G name orphaned ≡ aborted
      unfolding search_table
      orphan_looked_up free =
          elim (Option-cases (first_index (has_name G name orphaned) num_block 0)) [
            | inl missing ↦ cc (
              orphan_hit,
              first_index-none (has_name G name orphaned) num_block 0 i missing (omega arith)
                  (omega arith),
            )
            | inr (j, found) ↦
                let (hit, _, ltj) =
                  first_index-some (has_name G name orphaned) num_block 0 j found in
                let same = only_orphan free j ltj hit in
                rw (found, search_table) (rw same (orphan_aborts free))
          ]

    -- In a valid table, no client registered, for a size above 0 and below 2^32 under a name of no entry:
    -- where a free entry is left but the segment has no memory for a new name, `allocateBlock` throws
    -- bad_alloc with the entry already filled in: from then on `findHandle` for that name fails the
    -- assertion of `connectBlock`.
    pub bad_alloc_leaves_entry :
        (i : ℕ)
        → i < num_block
        → (s.descriptors i).active_ ≡ false
        → G.construct s.segment (name_of name) size ≡ none
        → (t : Shared G) × (allocate_block G others name size s ≡ bad_alloc t)
          × (find_handle G others name t ≡ aborted)
    unfolding allocate_block place_block find_handle new_block
    bad_alloc_leaves_entry i lt free refused =
        elim (Option-cases (first_index (is_free G s) num_block 0)) [
          | inl full ↦ cc (
            free,
            is_free-active G laws s i
                (first_index-none (is_free G s) num_block 0 i full (omega arith) (omega arith)),
          )
          | inr (j, found) ↦
              let (hit, _, ltj) = first_index-some (is_free G s) num_block 0 j found in
              let free_j = is_free-inactive G laws s j hit in
              let here = orphan_facts j ltj in
              (
                orphaned j ltj,
                rw (no_wait G others s quiet) (
                    rw (no_match, found, place_block)
                      (rw (rw (← here.2) at refused, new_block) refl)),
                rw (no_wait G others (orphaned j ltj) quiet) (orphan_looked_up j ltj free_j),
              )
        ]
