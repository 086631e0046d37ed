-- ===== src/Sharedmem/Block/Ends.antt =====
-- How `allocateBlock` ends: it returns, or the bad_alloc of a segment without space leaves it. No
-- assertion fails.
use message_transport.Common.{
  ℕ, ◌^◌, ◌<◌, ◌≡◌, ◌⊎◌, inl, inr, refl, sym, ap, ◌∙◌, subst, none, List, Bool-cases, Option-cases,
  ltb, arith,
}
use message_transport.Sharedmem.Names.{Chars}
use message_transport.Sharedmem.Segment.{Segment, IsSegment}
use message_transport.Sharedmem.Descriptor.{key, name_of, record_size, allocate, key-allocate}
use message_transport.Sharedmem.Block.State.{
  num_block, ShmHandle, Outcome, ok, bad_alloc, first_index, Shared, Others, find_block,
}
use message_transport.Sharedmem.Block.Operations.{
  has_name, is_free, reconnect_block, new_block, place_block, allocate_block,
}
use message_transport.Sharedmem.Block.Validity.{IsValid, first_index-some}
use message_transport.Sharedmem.Block.Allocate.{has_name-Named}
use message_transport.Sharedmem.Block.Lookup.{Answers, no_wait, allocate_block-Answers}

module _ (G : Segment) where
  -- The segment fails to construct an object for the name: a new one, or, in place of the destroyed one,
  -- a larger one.
  abbrev pub NoSpace : Chars → ℕ → Shared G → Type 0
  NoSpace name size s =
      let n = name_of name in
      (G.construct s.segment n size ≡ none)
      ⊎ (((G.find s.segment n).second < size) × (G.construct (G.destroy s.segment n) n size ≡ none))

  abbrev Ends : Chars → ℕ → Shared G → Outcome (Shared G) ShmHandle → Type 0
  Ends name size s r =
      ((shm : ShmHandle) × (t : Shared G) × (r ≡ ok shm t))
      ⊎ ((t : Shared G) × (r ≡ bad_alloc t) × NoSpace name size s)

  reconnect_block-Ends :
      (name : Chars) (i size : ℕ) (s : Shared G)
      → key (s.descriptors i) ≡ name_of name
      → Ends name size s (reconnect_block G i size s)
  unfolding reconnect_block
  reconnect_block-Ends name i size s named =
      elim (Bool-cases (ltb (find_block G i s).second size)) [
        | inr fits ↦ rw fits (inl (_, _, refl))
        | inl small ↦
            let k = key (s.descriptors i) in
            elim (Option-cases (G.construct (G.destroy s.segment k) k size)) [
              | inr ((m, p), made) ↦ rw (small, made) (inl (_, _, refl))
              | inl short ↦
                  let fewer : (find_block G i s).second < size = ground (arith, small) in
                  let space : NoSpace name size s = inr (
                    subst
                      (λ (n : List ℕ).
                        ((G.find s.segment n).second < size)
                        × (G.construct (G.destroy s.segment n) n size ≡ none))
                      named (fewer, short)) in
                  rw (small, short) (inr (_, refl, space))
            ]
      ]

  new_block-Ends :
      (i : ℕ) (name : Chars) (size : ℕ) (s : Shared G)
      → Ends name size s (new_block G i name size s)
  unfolding new_block allocate record_size
  new_block-Ends i name size s =
      let k = key (record_size size size (allocate name (s.descriptors i))) in
      elim (Option-cases (G.construct s.segment k size)) [
        | inr ((m, p), made) ↦ rw (made, new_block) (inl (_, _, refl))
        | inl short ↦
            let space : NoSpace name size s = inl (
              ap (λ (n : List ℕ). G.construct s.segment n size)
                (sym (key-allocate name (s.descriptors i)))
              ∙ short) in
            rw (short, new_block) (inr (_, refl, space))
      ]

  module _ (laws : IsSegment G) where
    place_block-Ends :
        (name : Chars) (size : ℕ) (s : Shared G) → Ends name size s (place_block G name size s)
    unfolding place_block
    place_block-Ends name size s =
        elim (Option-cases (first_index (has_name G name s) num_block 0)) [
          | inr (i, found) ↦
              let (hit, _, _) = first_index-some (has_name G name s) num_block 0 i found in
              let (_, named) = has_name-Named G laws name s i hit in
              rw (found, place_block) (reconnect_block-Ends name i size s named)
          | inl missing ↦ elim (Option-cases (first_index (is_free G s) num_block 0)) [
            | inr (i, found) ↦ rw (missing, found, place_block) (new_block-Ends i name size s)
            | inl full ↦ rw (missing, full, place_block) (inl (_, _, refl))
          ]
        ]

    allocate_block-Ends :
        (others : Others G) (name : Chars) (size : ℕ) (s : Shared G)
        → s.num_clients ≡ 0
        → Ends name size s (allocate_block G others name size s)
    unfolding allocate_block
    allocate_block-Ends others name size s quiet =
        rw (no_wait G others s quiet) (place_block-Ends name size s)

  -- In a valid table with no client registered, `allocateBlock` returns what it may return, or the
  -- segment, without space for the name, throws bad_alloc.
  pub allocate_block_cases :
      (laws : IsSegment G) (others : Others G) (name : Chars) (size : ℕ) (s : Shared G)
      → IsValid G s
      → s.num_clients ≡ 0
      → size < 2 ^ 32
      → ((shm : ShmHandle) × (t : Shared G) × (allocate_block G others name size s ≡ ok shm t)
          × Answers G s name size shm t)
        ⊎ ((t : Shared G) × (allocate_block G others name size s ≡ bad_alloc t)
            × NoSpace name size s)
  allocate_block_cases laws others name size s valid quiet wide =
      elim (allocate_block-Ends laws others name size s quiet) [
        | inl (shm, t, e) ↦
            inl (shm, t, e, allocate_block-Answers G laws others name size s valid quiet wide e)
        | inr failed ↦ inr failed
      ]
