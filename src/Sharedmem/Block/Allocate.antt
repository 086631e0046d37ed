-- ===== src/Sharedmem/Block/Allocate.antt =====
-- `allocateBlock` and `findHandle`: which block a name gets.
use message_transport.Common.{
  ℕ, ◌%◌, ◌^◌, ◌≤◌, ◌<◌, ◌≡◌, ◌≢◌, ◌⊎◌, inl, inr, refl, sym, ap, ◌∙◌, true, false, some, List, ltb,
  lt→ltb, le→ltb, ◌==◌, if◌then◌else◌, Option-cases, ℕ_discrete, dec_lt, arith,
}
use message_transport.Sharedmem.Names.{Chars}
use message_transport.Sharedmem.Segment.{Segment, IsSegment, Found}
use message_transport.Sharedmem.Descriptor.{
  Descriptor, key, name_of, record_size, allocate, match_name_iff, key-allocate,
}
use message_transport.Sharedmem.Block.State.{
  num_block, ShmHandle, OnOk, update, Shared, set_descriptor, find_block,
}
use message_transport.Sharedmem.Block.Operations.{has_name, is_free, reconnect_block, new_block}
use message_transport.Sharedmem.Block.Validity.{Backed, IsValid, update_same, update_ne}
use message_transport.Sharedmem.Block.Change.{fill-IsValid}
use message_transport.Sharedmem.Block.Resize.{
  IsCurrent, HasSize, grown-IsValid, grown-IsCurrent, grown-HasSize, refitted-IsValid,
  refitted-IsCurrent, refitted-HasSize,
}
use message_transport.Sharedmem.Block.Counts.{record_size-clients}
use native.Mathlib.Nat.{mod-eq_of_lt}

module _ (G : Segment) where
  -- A good end of `allocateBlock`: the state is valid, and the handle is that of an active entry with
  -- the name, of `size` bytes in use, which had the name before or was free. The other entries and
  -- the registered clients are as before.
  pub record Allocated (name : Chars) (size : ℕ) (s : Shared G) (shm : ShmHandle) (t : Shared G)
      : Type 0 where
    pub valid : IsValid G t
    pub current : IsCurrent G shm t
    pub named : key (t.descriptors shm.handle) ≡ name_of name
    pub sized : HasSize G shm.handle size t
    pub elsewhere : (j : ℕ) → j ≢ shm.handle → t.descriptors j ≡ s.descriptors j
    pub clients :
        (t.num_clients ≡ s.num_clients)
        × ((t.descriptors shm.handle).num_clients ≡ (s.descriptors shm.handle).num_clients)
    pub before :
        (((s.descriptors shm.handle).active_ ≡ true)
          × (key (s.descriptors shm.handle) ≡ name_of name))
        ⊎ ((s.descriptors shm.handle).active_ ≡ false)

module _ (G : Segment) (laws : IsSegment G) where
  module _ {s : Shared G} (valid : IsValid G s) (i : ℕ) (inside : i < num_block)
      (active : (s.descriptors i).active_ ≡ true) (name : Chars)
      (named : key (s.descriptors i) ≡ name_of name) (size : ℕ) (wide : size < 2 ^ 32) where
    open (valid.backed i inside active) use {counted, sized, narrow}

    abbrev found_size : ℕ
    found_size = (find_block G i s).second

    still_named :
        (alloc : ℕ)
        → key (update s.descriptors i (record_size size alloc (s.descriptors i)) i) ≡ name_of name
    unfolding record_size
    still_named alloc =
        ap key (update_same s.descriptors i (record_size size alloc (s.descriptors i))) ∙ named

    same_clients :
        (alloc : ℕ)
        → (update s.descriptors i (record_size size alloc (s.descriptors i)) i).num_clients
          ≡ (s.descriptors i).num_clients
    same_clients alloc =
        ap (λ (d : Descriptor). d.num_clients)
          (update_same s.descriptors i (record_size size alloc (s.descriptors i)))
        ∙ record_size-clients size alloc (s.descriptors i)

    reconnect_grows :
        (s.descriptors i).allocated_ < size
        → OnOk (reconnect_block G i size s) (Allocated G name size s)
    unfolding reconnect_block
    reconnect_grows grows = elim (Option-cases (G.construct (G.destroy s.segment k) k size)) [
      | inl refused ↦ rw (larger, refused, OnOk) tt
      | inr ((m, p), made) ↦
          rw (larger, made, OnOk)
            (record {
              valid = grown-IsValid G laws valid i inside active size wide grows m p made;
              current = grown-IsCurrent G laws valid i inside active size wide grows m p made;
              named = still_named size;
              sized = grown-HasSize G laws valid i inside active size wide grows m p made;
              elsewhere =
                  λ j ne. update_ne s.descriptors i j (record_size size size (s.descriptors i)) ne;
              clients = (refl, same_clients size);
              before = inl (active, named);
            })
    ]
      where
        k : List ℕ
        k = key (s.descriptors i)

        larger : ltb found_size size ≡ true
        larger = lt→ltb found_size size (rw counted grows)

    reconnect_keeps :
        size ≤ (s.descriptors i).allocated_
        → OnOk (reconnect_block G i size s) (Allocated G name size s)
    unfolding reconnect_block
    reconnect_keeps fits =
        rw (le→ltb found_size size (rw counted fits), OnOk)
          (record {
            valid = refitted-IsValid G laws valid i inside active size alloc fits same;
            current =
                refitted-IsCurrent G laws valid i inside active size alloc fits same
                  (record {
                    handle = i;
                    ptr = (find_block G i s).first;
                    resize_count = (record_size size alloc (s.descriptors i)).resize_count_;
                  })
                  refl refl refl;
            named = still_named alloc;
            sized = refitted-HasSize G laws valid i inside active size alloc fits same;
            elsewhere =
                λ j ne. update_ne s.descriptors i j (record_size size alloc (s.descriptors i)) ne;
            clients = (refl, same_clients alloc);
            before = inl (active, named);
          })
      where
        alloc : ℕ
        alloc = found_size % 2 ^ 32

        same :
            (if alloc == 0 then (s.descriptors i).allocated_ else alloc)
            ≡ (s.descriptors i).allocated_
        same = rw (counted, mod-eq_of_lt narrow) (ground arith)

    pub reconnect-Allocated : OnOk (reconnect_block G i size s) (Allocated G name size s)
    reconnect-Allocated = elim (dec_lt (s.descriptors i).allocated_ size) [
      | yes grows ↦ reconnect_grows grows
      | no fits ↦ reconnect_keeps (omega arith)
    ]

  module _ {s : Shared G} (valid : IsValid G s) (i : ℕ) (inside : i < num_block)
      (free : (s.descriptors i).active_ ≡ false) (name : Chars)
      (unused : (j : ℕ)
        → j < num_block
        → (s.descriptors j).active_ ≡ true
        → key (s.descriptors j) ≢ name_of name)
      (size : ℕ) (wide : size < 2 ^ 32) where
    abbrev filled : Descriptor
    filled = record_size size size (allocate name (s.descriptors i))

    filled-key : key filled ≡ name_of name
    unfolding record_size
    filled-key = key-allocate name (s.descriptors i)

    pub no_object : (G.find s.segment (name_of name)).first ≡ 0
    no_object = elim (ℕ_discrete (G.find s.segment (name_of name)).first 0) [
      | yes e ↦ e
      | no there ↦ let (j, lt, a, k) = valid.owned (name_of name) there in absurd (unused j lt a k)
    ]

    filled_sizes : (filled.size_ ≡ size) × (filled.allocated_ ≡ size) × (filled.active_ ≡ true)
    unfolding record_size allocate
    filled_sizes = ground (arith, valid.idle i inside free)

    filled_clients : filled.num_clients ≡ (s.descriptors i).num_clients
    unfolding record_size allocate
    filled_clients = refl

    placed :
        (m : G.Memory) (p : ℕ)
        → G.construct s.segment (key filled) size ≡ some (m, p)
        → Allocated G name size s
            (record { handle = i; ptr = p; resize_count = filled.resize_count_ })
            (set_descriptor G i filled (record s { segment = m }))
    placed m p made = record {
      valid =
          fill-IsValid G valid i inside filled m filled_sizes.2 backed
            (λ n ne. laws.construct_ne s.segment m (key filled) n size p made ne)
            (λ j lt ne a e. unused j lt a (e ∙ filled-key)) (λ a. cc (free, a));
      current = record {
        inside = inside;
        active = ap (λ (d : Descriptor). d.active_) here ∙ filled_sizes.2;
        there = object.0;
        pointer = sym (
            ap (λ (d : Descriptor). (G.find m (key d)).first) here
            ∙ ap (λ (f : Found). f.first) object.1);
        count = sym (ap (λ (d : Descriptor). d.resize_count_) here);
      };
      named = ap key here ∙ filled-key;
      sized = ap (λ (d : Descriptor). d.size_) here ∙ filled_sizes.0;
      elsewhere = λ j ne. update_ne s.descriptors i j filled ne;
      clients = (refl, ap (λ (d : Descriptor). d.num_clients) here ∙ filled_clients);
      before = inr free;
    }
      where
        here : update s.descriptors i filled i ≡ filled
        here = update_same s.descriptors i filled

        object : (p ≢ 0) × (G.find m (key filled) ≡ record { first = p; second = size })
        object = laws.construct_new s.segment m (key filled) size p (rw filled-key no_object) made

        backed : Backed G filled (G.find m (key filled))
        backed = rw (object.1) (record {
          present = object.0;
          counted = sym filled_sizes.1;
          sized = omega (arith, filled_sizes);
          narrow = omega (arith, filled_sizes);
        })

    pub new-Allocated : OnOk (new_block G i name size s) (Allocated G name size s)
    unfolding new_block
    new-Allocated = elim (Option-cases (G.construct s.segment (key filled) size)) [
      | inl refused ↦ rw (refused, OnOk) tt
      | inr ((m, p), made) ↦ rw (made, OnOk) (placed m p made)
    ]

  -- Whether an entry has the name, and which entries are free.
  pub has_name-Named :
      (name : Chars) (s : Shared G) (i : ℕ)
      → has_name G name s i ≡ true
      → ((s.descriptors i).active_ ≡ true) × (key (s.descriptors i) ≡ name_of name)
  has_name-Named name s i e = ground (arith, match_name_iff name (s.descriptors i))

  pub not-has_name :
      (name : Chars) (s : Shared G) (i : ℕ)
      → has_name G name s i ≡ false
      → (s.descriptors i).active_ ≡ true
      → key (s.descriptors i) ≢ name_of name
  not-has_name name s i e a k = cc (e, a, (match_name_iff name (s.descriptors i)).1 k)

  pub is_free-inactive :
      (s : Shared G) (i : ℕ) → is_free G s i ≡ true → (s.descriptors i).active_ ≡ false
  is_free-inactive s i e = ground arith

  pub is_free-active :
      (s : Shared G) (i : ℕ) → is_free G s i ≡ false → (s.descriptors i).active_ ≡ true
  is_free-active s i e = ground arith
