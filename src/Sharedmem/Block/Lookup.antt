-- ===== src/Sharedmem/Block/Lookup.antt =====
-- `allocateBlock` as a whole, `findHandle`, and the two one after the other.
use message_transport.Common.{
  ℕ, ◌^◌, ◌<◌, ◌≡◌, ◌≢◌, ◌⊎◌, inl, inr, refl, sym, ap, ◌∙◌, true, none, lt→ltb, le→ltb,
  Option-cases, arith,
}
use message_transport.Sharedmem.Names.{Chars}
use message_transport.Sharedmem.Segment.{Segment, IsSegment}
use message_transport.Sharedmem.Descriptor.{key, name_of}
use message_transport.Sharedmem.Block.State.{
  num_block, ShmHandle, no_handle, Outcome, ok, OnOk, on_ok, OnOk-map, first_index, Shared, Others,
  find_block, check_global_clients,
}
use message_transport.Sharedmem.Block.Operations.{
  has_name, is_free, connect_block, find_handle, allocate_block, place_block, search_table,
  reconnect_block, new_block,
}
use message_transport.Sharedmem.Block.Validity.{IsValid, first_index-some, first_index-none}
use message_transport.Sharedmem.Block.Resize.{IsCurrent}
use message_transport.Sharedmem.Block.Allocate.{
  Allocated, reconnect-Allocated, new-Allocated, has_name-Named, not-has_name, is_free-inactive,
  is_free-active,
}

module _ (G : Segment) where
  -- What `allocateBlock` may return: a block of the name, or no handle when the table is full.
  abbrev pub Answers : Shared G → Chars → ℕ → ShmHandle → Shared G → Type 0
  Answers s name size shm t =
      Allocated G name size s shm t
      ⊎ ((shm ≡ no_handle)
          × (t ≡ s)
          × ((i : ℕ)
              → i < num_block
              → ((s.descriptors i).active_ ≡ true) × (key (s.descriptors i) ≢ name_of name)))

  -- With no client registered nothing waits.
  pub no_wait :
      (others : Others G) (s : Shared G) → s.num_clients ≡ 0 → check_global_clients G others s ≡ s
  unfolding check_global_clients
  no_wait others s quiet = ground (arith, quiet)

module _ (G : Segment) (laws : IsSegment G) (others : Others G) where
  good_answer :
      (name : Chars) (size : ℕ) (s : Shared G) (r : Outcome (Shared G) ShmHandle)
      → OnOk r (Allocated G name size s)
      → OnOk r (Answers G s name size)
  good_answer name size s r =
      OnOk-map {P = Allocated G name size s} {Q = Answers G s name size} r (λ shm t good. inl good)

  place-Answers :
      (name : Chars) (size : ℕ) (s : Shared G)
      → IsValid G s
      → size < 2 ^ 32
      → OnOk (place_block G name size s) (Answers G s name size)
  unfolding place_block
  place-Answers name size s valid wide =
      elim (Option-cases (first_index (has_name G name s) num_block 0)) [
        | inr (i, found) ↦
            let (hit, _, lt) = first_index-some (has_name G name s) num_block 0 i found in
            let (active, named) = has_name-Named G laws name s i hit in
            rw (found, OnOk)
              (good_answer name size s (reconnect_block G i size s)
                (reconnect-Allocated G laws valid i lt active name named size wide))
        | inl missing ↦ elim (Option-cases (first_index (is_free G s) num_block 0)) [
          | inr (i, found) ↦
              let (hit, _, lt) = first_index-some (is_free G s) num_block 0 i found in
              rw (missing, found, OnOk)
                (good_answer name size s (new_block G i name size s) (
                  new-Allocated G laws valid i lt (is_free-inactive G laws s i hit) name
                    (unused missing) size wide))
          | inl full ↦ rw (missing, full, OnOk) (inr (refl, refl, taken missing full))
        ]
      ]
    where
      unused :
          first_index (has_name G name s) num_block 0 ≡ none
          → (j : ℕ) → j < num_block
          → (s.descriptors j).active_ ≡ true
          → key (s.descriptors j) ≢ name_of name
      unused missing j lt a =
          not-has_name G laws name s j
            (first_index-none (has_name G name s) num_block 0 j missing (omega arith) lt) a

      taken :
          first_index (has_name G name s) num_block 0 ≡ none
          → first_index (is_free G s) num_block 0 ≡ none
          → (i : ℕ) → i < num_block
          → ((s.descriptors i).active_ ≡ true) × (key (s.descriptors i) ≢ name_of name)
      taken missing full i lt =
          let a =
            is_free-active G laws s i
              (first_index-none (is_free G s) num_block 0 i full (omega arith) lt) in
          (a, unused missing i lt a)

  pub allocate_block-OnOk :
      (name : Chars) (size : ℕ) (s : Shared G)
      → IsValid G s
      → s.num_clients ≡ 0
      → size < 2 ^ 32
      → OnOk (allocate_block G others name size s) (Answers G s name size)
  unfolding allocate_block
  allocate_block-OnOk name size s valid quiet wide =
      rw (no_wait G others s quiet) (place-Answers name size s valid wide)

  -- In a valid table with no client registered, `allocateBlock` that returns gives a current handle of
  -- an active entry with the name, which has `size` bytes in use, in a table that is valid again; or it
  -- returns no handle and changes nothing, and then all entries are active under other names.
  pub allocate_block-Answers :
      (name : Chars) (size : ℕ) (s : Shared G) {shm : ShmHandle} {t : Shared G}
      → IsValid G s
      → s.num_clients ≡ 0
      → size < 2 ^ 32
      → allocate_block G others name size s ≡ ok shm t
      → Answers G s name size shm t
  allocate_block-Answers name size s valid quiet wide e =
      on_ok (Answers G s name size) (allocate_block G others name size s)
        (allocate_block-OnOk name size s valid quiet wide) e

  -- `connectBlock` at an active entry: the assertion holds, and the handle is current.
  connect_block-IsCurrent :
      (s : Shared G) (i : ℕ)
      → IsValid G s
      → i < num_block
      → (s.descriptors i).active_ ≡ true
      → (shm : ShmHandle) × (connect_block G i s ≡ ok shm s) × IsCurrent G shm s × (shm.handle ≡ i)
  unfolding connect_block
  connect_block-IsCurrent s i valid lt a =
      let b = valid.backed i lt a in
      (
        record {
          handle = i;
          ptr = (find_block G i s).first;
          resize_count = (s.descriptors i).resize_count_;
        },
        rw (
          lt→ltb i num_block lt,
          le→ltb (find_block G i s).second (s.descriptors i).size_ (rw (b.counted) (b.sized)),
        ),
        record { inside = lt; active = a; there = b.present; pointer = refl; count = refl },
        refl,
      )

  -- In a valid table with no client registered, `findHandle` returns and changes nothing. If an active
  -- entry has the name, the handle is a current one of that entry; if none has, it is no handle.
  pub find_handle_cases :
      (name : Chars) (s : Shared G)
      → IsValid G s
      → s.num_clients ≡ 0
      → ((shm : ShmHandle) × (find_handle G others name s ≡ ok shm s)
          × IsCurrent G shm s
          × (key (s.descriptors shm.handle) ≡ name_of name))
        ⊎ ((find_handle G others name s ≡ ok no_handle s)
            × ((i : ℕ)
                → i < num_block
                → (s.descriptors i).active_ ≡ true
                → key (s.descriptors i) ≢ name_of name))
  unfolding find_handle search_table
  find_handle_cases name s valid quiet =
      rw (no_wait G others s quiet)
        (elim (Option-cases (first_index (has_name G name s) num_block 0)) [
          | inr (i, found) ↦
              let (hit, _, lt) = first_index-some (has_name G name s) num_block 0 i found in
              let (active, named) = has_name-Named G laws name s i hit in
              let (shm, e, current, same) = connect_block-IsCurrent s i valid lt active in
              inl (shm, rw (found, search_table) e, current, rw same named)
          | inl missing ↦ inr (
            rw (missing, search_table),
            λ i lt a.
                not-has_name G laws name s i
                  (first_index-none (has_name G name s) num_block 0 i missing (omega arith) lt) a,
          )
        ])

  current_unique :
      (s : Shared G) (a b : ShmHandle)
      → IsCurrent G a s
      → IsCurrent G b s
      → a.handle ≡ b.handle
      → a ≡ b
  current_unique s a b ca cb e = ground (
    arith,
    ca.pointer,
    cb.pointer,
    ca.count,
    cb.count,
    ap (λ (i : ℕ). (find_block G i s).first) e,
    ap (λ (i : ℕ). (s.descriptors i).resize_count_) e,
  )

  -- On a valid table where no client is registered, and for a size below 2^32: after
  -- `allocateBlock` returned a handle that is not the empty one, and as long as no client is
  -- registered, `findHandle` for the name returns that very handle and changes nothing.
  pub find_handle-allocate_block :
      (name : Chars) (size : ℕ) (s : Shared G) {shm : ShmHandle} {t : Shared G}
      → IsValid G s
      → s.num_clients ≡ 0
      → size < 2 ^ 32
      → allocate_block G others name size s ≡ ok shm t
      → shm ≢ no_handle
      → t.num_clients ≡ 0
      → find_handle G others name t ≡ ok shm t
  find_handle-allocate_block name size s {shm} {t} valid quiet wide e real still =
      elim (allocate_block-Answers name size s valid quiet wide e) [
        | inr (none_left, _, _) ↦ absurd (real none_left)
        | inl good ↦ elim (find_handle_cases name t good.valid still) [
          | inl (found, f, current, named) ↦
              f
              ∙ ap (λ (h : ShmHandle). ok h t)
                  (current_unique t found shm current good.current (
                    good.valid.distinct found.handle shm.handle current.inside good.current.inside
                      current.active good.current.active (named ∙ sym good.named)))
          | inr (_, none_named) ↦
              absurd (none_named shm.handle good.current.inside good.current.active good.named)
        ]
      ]
