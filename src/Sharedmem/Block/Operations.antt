-- ===== src/Sharedmem/Block/Operations.antt =====
-- `findHandle`, `allocateBlock`, `resetBlock`, `resetAllBlocks` and `reallocateBlock`.
use message_transport.Common.{
  ℕ, zero, suc, ◌%◌, ◌^◌, Bool, not, ◌&&◌, none, some, ltb, ◌==◌, if◌then◌else◌,
}
use message_transport.Sharedmem.Names.{Chars}
use message_transport.Sharedmem.Segment.{Segment}
use message_transport.Sharedmem.Descriptor.{key, record_size, allocate, reset, match_name}
use message_transport.Sharedmem.Block.State.{
  num_block, ShmHandle, no_handle, is_valid, Outcome, ok, bad_alloc, aborted, out_of_bounds,
  first_index, Shared, Client, Others, set_descriptor, find_block, check_global_clients,
  check_clients,
}

module _ (G : Segment) where
  -- The tests of the loops over the table.
  abbrev pub has_name : Chars → Shared G → ℕ → Bool
  has_name name s i = (s.descriptors i).active_ && match_name name (s.descriptors i)

  abbrev pub is_free : Shared G → ℕ → Bool
  is_free s i = not (s.descriptors i).active_

  -- `find` gets `name_` without a length: the key is the name where the field has its terminator, as it
  -- has for topics of at most 255 characters.
  unfoldable pub connect_block : ℕ → Shared G → Outcome (Shared G) ShmHandle
  connect_block i s =
      let ret = find_block G i s in
      if ltb i num_block
      then (if ltb ret.second (s.descriptors i).size_
          then aborted
          else ok
              (record {
                handle = i;
                ptr = ret.first;
                resize_count = (s.descriptors i).resize_count_;
              })
              s)
      else aborted

  -- `allocateBlock` where a block has the name: a larger object takes the place of a smaller one.
  unfoldable pub reconnect_block : ℕ → ℕ → Shared G → Outcome (Shared G) ShmHandle
  reconnect_block i size s =
      let d = s.descriptors i in
      let ret = find_block G i s in
      let rest = G.destroy s.segment (key d) in
      let grown = record_size size size d in
      let kept = record_size size (ret.second % 2 ^ 32) d in
      if ltb ret.second size
      then elim (G.construct rest (key d) size) [
        | none ↦ bad_alloc (record s { segment = rest })
        | some (m, p) ↦
            ok (record { handle = i; ptr = p; resize_count = grown.resize_count_ })
              (set_descriptor G i grown (record s { segment = m }))
      ]
      else ok (record { handle = i; ptr = ret.first; resize_count = kept.resize_count_ })
          (set_descriptor G i kept s)

  -- `allocateBlock` at a free entry: the entry is filled before the memory is requested.
  unfoldable pub new_block : ℕ → Chars → ℕ → Shared G → Outcome (Shared G) ShmHandle
  new_block i name size s =
      let d = record_size size size (allocate name (s.descriptors i)) in
      elim (G.construct s.segment (key d) size) [
        | none ↦ bad_alloc (set_descriptor G i d s)
        | some (m, p) ↦
            ok (record { handle = i; ptr = p; resize_count = d.resize_count_ })
              (set_descriptor G i d (record s { segment = m }))
      ]

  unfoldable pub reset_entry : ℕ → Shared G → Shared G
  reset_entry i s =
      set_descriptor G i (reset (s.descriptors i))
        (record s { segment = G.destroy s.segment (key (s.descriptors i)) })

  -- The loop of `resetAllBlocks`, with `n` entries to go.
  unfoldable pub reset_from : ℕ → ℕ → Shared G → Shared G
  reset_from zero i s = s
  reset_from (suc n) i s =
      reset_from n (suc i) (if (s.descriptors i).active_ then reset_entry i s else s)

  -- The handle brought up to date with its entry.
  unfoldable pub update_handle : ShmHandle → Shared G → ShmHandle
  update_handle shm s = record shm {
    resize_count = (s.descriptors shm.handle).resize_count_;
    ptr = (find_block G shm.handle s).first;
  }

  abbrev pub is_stale : ShmHandle → Shared G → Bool
  is_stale shm s = not (shm.resize_count == (s.descriptors shm.handle).resize_count_)

  -- `reallocateBlock` where the block has to grow. Where there is no memory, the block is given up.
  unfoldable pub grow_block : ShmHandle → ℕ → Shared G → Outcome (Client G) (Unit {0})
  grow_block shm size s =
      let i = shm.handle in
      let d = s.descriptors i in
      let rest = G.destroy s.segment (key d) in
      elim (G.construct rest (key d) size) [
        | none ↦ ok tt (record {
          shm = no_handle;
          shared = set_descriptor G i (reset d) (record s { segment = rest });
        })
        | some (m, p) ↦
            let d' = record_size size size d in
            ok tt (record {
              shm = record { handle = i; ptr = p; resize_count = d'.resize_count_ };
              shared = set_descriptor G i d' (record s { segment = m });
            })
      ]

  -- The loops of `findHandle` and of `allocateBlock`, under the lock and with the clients checked.
  unfoldable pub search_table : Chars → Shared G → Outcome (Shared G) ShmHandle
  search_table name s = elim (first_index (has_name name s) num_block 0) [
    | some i ↦ connect_block i s
    | none ↦ ok no_handle s
  ]

  unfoldable pub place_block : Chars → ℕ → Shared G → Outcome (Shared G) ShmHandle
  place_block name size s = elim (first_index (has_name name s) num_block 0) [
    | some i ↦ reconnect_block i size s
    | none ↦ elim (first_index (is_free s) num_block 0) [
      | some i ↦ new_block i name size s
      | none ↦ ok no_handle s
    ]
  ]

  module _ (others : Others G) where
    unfoldable pub find_handle : Chars → Shared G → Outcome (Shared G) ShmHandle
    find_handle name s = search_table name (check_global_clients G others s)

    unfoldable pub allocate_block : Chars → ℕ → Shared G → Outcome (Shared G) ShmHandle
    allocate_block name size s = place_block name size (check_global_clients G others s)

    unfoldable pub reset_block : Client G → Outcome (Client G) (Unit {0})
    reset_block c =
        let i = c.shm.handle in
        let s = check_global_clients G others (check_clients G others i c.shared) in
        if ltb i num_block
        then (if is_valid c.shm
            then ok tt (record { shm = no_handle; shared = reset_entry i s })
            else ok tt (record { shm = c.shm; shared = s }))
        else out_of_bounds

    unfoldable pub reset_all_blocks : Shared G → Shared G
    reset_all_blocks s = reset_from num_block 0 (check_global_clients G others s)

    -- The second half of `reallocateBlock`, on a handle that is up to date.
    unfoldable pub resize_block : ShmHandle → ℕ → Shared G → Outcome (Client G) (Unit {0})
    resize_block shm size s =
        let d = s.descriptors shm.handle in
        if ltb d.allocated_ size
        then grow_block shm size (check_global_clients G others s)
        else ok tt
            (record { shm = shm; shared = set_descriptor G shm.handle (record_size size 0 d) s })

    unfoldable pub reallocate_block : ℕ → Client G → Outcome (Client G) (Unit {0})
    reallocate_block size c =
        let i = c.shm.handle in
        let s = check_clients G others i c.shared in
        let s' = check_global_clients G others s in
        if is_valid c.shm
        then (if ltb i num_block
            then (if is_stale c.shm s
                then resize_block (update_handle c.shm s') size s'
                else resize_block c.shm size s)
            else out_of_bounds)
        else ok tt c
