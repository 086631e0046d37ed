-- ===== src/Publisher/Overwritten.antt =====
-- Two messages, and no pass of the subscriber in between.
use message_transport.Common.{ℕ, ◌+◌, ◌^◌, ◌<◌, ◌≡◌, sym, ap, ◌∙◌, subst, true, Option, List}
use message_transport.Serialization.Interface.{serialization_length}
use message_transport.Serialization.Message.{RawMessage, message}
use message_transport.Serialization.Buffers.{IsMessage, Allocates}
use message_transport.Sharedmem.Segment.{Segment, IsSegment}
use message_transport.Sharedmem.Descriptor.{Descriptor}
use message_transport.Sharedmem.Block.State.{ShmHandle, ok, ok-inj, Shared, Client, Others}
use message_transport.Sharedmem.Block.Transfer.{serialize_message, wait_data}
use message_transport.Sharedmem.Block.Validity.{IsValid}
use message_transport.Sharedmem.Block.Resize.{IsCurrent, HasSize}
use message_transport.Sharedmem.Block.Access.{Quiet, Coherent}
use message_transport.Publisher.Delivery.{raw_message-Delivered}

module _ (G : Segment) where
  still-Quiet :
      (i : ℕ) (s t : Shared G)
      → t.num_clients ≡ s.num_clients
      → t.descriptors ≡ s.descriptors
      → Quiet G i s
      → Quiet G i t
  still-Quiet i s t count table quiet = record {
    global = count ∙ quiet.global;
    local = ap (λ (f : ℕ → Descriptor). (f i).num_clients) table ∙ quiet.local;
  }

  -- A reader's handle stays coherent where the descriptors and the object stay.
  still-Coherent :
      (shm : ShmHandle) (q n : ℕ) (s t : Shared G)
      → t.descriptors ≡ s.descriptors
      → IsCurrent G shm s
      → IsCurrent G shm t
      → Coherent G (record { handle = shm.handle; ptr = q; resize_count = n }) s
      → Coherent G (record { handle = shm.handle; ptr = q; resize_count = n }) t
  still-Coherent shm q n s t table before after co = record {
    inside = co.inside;
    active = after.active;
    there = co.there;
    pointer = λ e.
        co.pointer (e ∙ ap (λ (f : ℕ → Descriptor). (f shm.handle).resize_count_) table)
        ∙ sym before.pointer
        ∙ after.pointer;
  }

module _ (G : Segment) (laws : IsSegment G) (others : Others G) (alloc : ℕ → Option (List ℕ))
    (m1 m2 old : RawMessage) (good1 : IsMessage m1) (good2 : IsMessage m2) (target : IsMessage old)
    (stamp1 : m1.timestamp < 2 ^ 64) (stamp2 : m2.timestamp < 2 ^ 64)
    (small1 : 8 + m1.m_allocated_bytes < 2 ^ 32) (small2 : 8 + m2.m_allocated_bytes < 2 ^ 32)
    (room1 : Allocates alloc m1.m_allocated_bytes)
    (room2 : Allocates alloc m2.m_allocated_bytes) where
  -- Two messages of one announced length that are sent one after the other through a block, before
  -- the subscriber makes a pass: both calls of `serialize` return, and the next pass receives the
  -- second, and so does every pass after it that ends with a notification; the first is lost, and
  -- no call says so. The conditions are those of a single delivery.
  pub serialize_message-overwrites :
      (c : Client G) (q n : ℕ)
      → serialization_length (message alloc) m1 ≡ serialization_length (message alloc) m2
      → IsValid G c.shared
      → Quiet G c.shm.handle c.shared
      → IsCurrent G c.shm c.shared
      → HasSize G c.shm.handle (serialization_length (message alloc) m1) c.shared
      → Coherent G (record { handle = c.shm.handle; ptr = q; resize_count = n }) c.shared
      → ((s : Shared G) → others.arrival c.shm.handle s ≡ (s, true))
      → (c1 c2 : Client G) × (serialize_message G others (message alloc) m1 c ≡ ok tt c1)
        × (serialize_message G others (message alloc) m2 c1 ≡ ok tt c2)
        × (wait_data G others (message alloc) old (record {
          shm = record { handle = c.shm.handle; ptr = q; resize_count = n };
          shared = c2.shared;
        })
            ≡ ok (true, m2) c2)
        × (wait_data G others (message alloc) old c2 ≡ ok (true, m2) c2)
  serialize_message-overwrites c q n same valid quiet cur sized co arrives =
      let (s1, sent1, valid1, cur1, count1, table1, _) =
        raw_message-Delivered G laws others alloc m1 old good1 target stamp1 small1 room1 c q n
          valid quiet cur sized co arrives in
      let c1 : Client G = record { shm = c.shm; shared = s1 } in
      let quiet1 = still-Quiet G c.shm.handle c.shared s1 count1 table1 quiet in
      let sized1 : HasSize G c.shm.handle (serialization_length (message alloc) m2) s1 =
        ap (λ (f : ℕ → Descriptor). (f c.shm.handle).size_) table1 ∙ sized ∙ same in
      let deliver =
        raw_message-Delivered G laws others alloc m2 old good2 target stamp2 small2 room2 c1 in
      let (s2, sent2, _, _, _, _, read) =
        deliver q n valid1 quiet1 cur1 sized1
          (still-Coherent G c.shm q n c.shared s1 table1 cur cur1 co) arrives in
      let own : Coherent G c.shm s1 = record {
        inside = cur1.inside;
        active = cur1.active;
        there = cur1.there;
        pointer = λ e. cur1.pointer;
      } in
      let (t2, sent_again, _, _, _, _, read_again) =
        deliver c.shm.ptr c.shm.resize_count valid1 quiet1 cur1 sized1 own arrives in
      let state = ok-inj (sym sent_again ∙ sent2) in
      (
        c1,
        record { shm = c.shm; shared = s2 },
        sent1,
        sent2,
        read,
        subst (λ (x : Client G). wait_data G others (message alloc) old x ≡ ok (true, m2) x) state
            read_again,
      )
