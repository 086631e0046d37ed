-- ===== src/Sharedmem/Block/Resize.antt =====
-- What a change of a block's size does: recorded within the memory at hand, or with a new object.
use message_transport.Common.{
  ℕ, ◌^◌, ◌≤◌, ◌<◌, ◌≡◌, ◌≢◌, refl, sym, ap, ◌∙◌, true, some, ◌==◌, if◌then◌else◌, arith,
}
use message_transport.Sharedmem.Segment.{Segment, IsSegment, Found}
use message_transport.Sharedmem.Descriptor.{Descriptor, key, record_size}
use message_transport.Sharedmem.Block.State.{
  num_block, ShmHandle, Shared, set_descriptor, find_block,
}
use message_transport.Sharedmem.Block.Validity.{Backed, IsValid, update_same}
use message_transport.Sharedmem.Block.Change.{fill-IsValid}

module _ (G : Segment) where
  -- A handle that names an active entry and points to its object.
  pub record IsCurrent (shm : ShmHandle) (s : Shared G) : Type 0 where
    pub inside : shm.handle < num_block
    pub active : (s.descriptors shm.handle).active_ ≡ true
    pub there : shm.ptr ≢ 0
    pub pointer : shm.ptr ≡ (find_block G shm.handle s).first
    pub count : shm.resize_count ≡ (s.descriptors shm.handle).resize_count_

  -- An entry that records `size` bytes in use.
  abbrev pub HasSize : ℕ → ℕ → Shared G → Type 0
  HasSize i size s = (s.descriptors i).size_ ≡ size

module _ (G : Segment) (laws : IsSegment G) {s : Shared G} (valid : IsValid G s) (i : ℕ)
    (inside : i < num_block) (active : (s.descriptors i).active_ ≡ true) where
  abbrev entry : Descriptor
  entry = s.descriptors i

  only_this :
      (j : ℕ)
      → j < num_block
      → (j ≢ i)
      → (s.descriptors j).active_ ≡ true
      → key (s.descriptors j) ≢ key entry
  only_this j lt ne a e = ne (valid.distinct j i lt inside a active e)

  module _ (size : ℕ) (wide : size < 2 ^ 32) (grows : entry.allocated_ < size) (m : G.Memory)
      (p : ℕ)
      (made : G.construct (G.destroy s.segment (key entry)) (key entry) size ≡ some (m, p)) where
    abbrev pub grown : Shared G
    grown = set_descriptor G i (record_size size size entry) (record s { segment = m })

    grown_object : (p ≢ 0) × (G.find m (key entry) ≡ record { first = p; second = size })
    grown_object =
        laws.construct_new (G.destroy s.segment (key entry)) m (key entry) size p
          (laws.find-destroy s.segment (key entry)) made

    grown-Backed : Backed G (record_size size size entry) (G.find m (key entry))
    unfolding record_size
    grown-Backed = rw (grown_object.1) (record {
      present = grown_object.0;
      counted = ground arith;
      sized = ground arith;
      narrow = ground arith;
    })

    pub grown-IsValid : IsValid G grown
    unfolding record_size
    grown-IsValid =
        fill-IsValid G valid i inside (record_size size size entry) m active grown-Backed
          (λ n ne.
            laws.construct_ne (G.destroy s.segment (key entry)) m (key entry) n size p made ne
            ∙ laws.find-destroy_ne s.segment (key entry) n ne)
          only_this (λ _. refl)

    pub grown-IsCurrent :
        IsCurrent G
          (record {
            handle = i;
            ptr = p;
            resize_count = (record_size size size entry).resize_count_;
          })
          grown
    unfolding record_size
    grown-IsCurrent = record {
      inside = inside;
      active = rw (update_same s.descriptors i (record_size size size entry)) active;
      there = grown_object.0;
      pointer = sym (
          ap (λ (d : Descriptor). (G.find m (key d)).first)
            (update_same s.descriptors i (record_size size size entry))
          ∙ ap (λ (f : Found). f.first) grown_object.1);
      count = sym (
          ap (λ (d : Descriptor). d.resize_count_)
            (update_same s.descriptors i (record_size size size entry)));
    }

    pub grown-HasSize : HasSize G i size grown
    unfolding record_size
    grown-HasSize =
        ap (λ (d : Descriptor). d.size_) (update_same s.descriptors i (record_size size size entry))

  module _ (size alloc : ℕ) (fits : size ≤ entry.allocated_)
      (same : (if alloc == 0 then entry.allocated_ else alloc) ≡ entry.allocated_) where
    abbrev pub refitted : Shared G
    refitted = set_descriptor G i (record_size size alloc entry) s

    refitted-Backed : Backed G (record_size size alloc entry) (find_block G i s)
    unfolding record_size
    refitted-Backed =
        let b = valid.backed i inside active in
        record {
          present = b.present;
          counted = b.counted ∙ sym same;
          sized = rw same fits;
          narrow = rw same (b.narrow);
        }

    pub refitted-IsValid : IsValid G refitted
    unfolding record_size
    refitted-IsValid =
        fill-IsValid G valid i inside (record_size size alloc entry) s.segment active
          refitted-Backed (λ n ne. refl) only_this (λ _. refl)

    pub refitted-IsCurrent :
        (shm : ShmHandle)
        → shm.handle ≡ i
        → shm.ptr ≡ (find_block G i s).first
        → shm.resize_count ≡ (record_size size alloc entry).resize_count_
        → IsCurrent G shm refitted
    unfolding record_size
    refitted-IsCurrent shm e pt ct = whole
      where
        here : refitted.descriptors i ≡ record_size size alloc entry
        here = update_same s.descriptors i (record_size size alloc entry)

        whole : IsCurrent G shm refitted
        whole = record {
          inside = rw e inside;
          active = rw e (rw here active);
          there = rw pt ((valid.backed i inside active).present);
          pointer =
              pt ∙ rw e (sym (ap (λ (d : Descriptor). (G.find s.segment (key d)).first) here));
          count = ct ∙ rw e (sym (ap (λ (d : Descriptor). d.resize_count_) here));
        }

    pub refitted-HasSize : HasSize G i size refitted
    unfolding record_size
    refitted-HasSize =
        ap (λ (d : Descriptor). d.size_)
          (update_same s.descriptors i (record_size size alloc entry))
