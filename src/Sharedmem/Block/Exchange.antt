-- ===== src/Sharedmem/Block/Exchange.antt =====
-- One message through a block: `serialize` on one side, `wait_data` on the other.
use message_transport.Common.{
  ℕ, ◌+◌, ◌-◌, ◌≤◌, ◌≡◌, inl, inr, refl, sym, ap, ◌∙◌, Bool, true, false, some, List, length,
  lt→ltb, ◌==◌, if◌then◌else◌, Bool-cases, arith,
}
use message_transport.Serialization.Stream
use message_transport.Serialization.Stream.{open_stream}
use message_transport.Serialization.Serializer.{Serializer}
use message_transport.Serialization.Interface.{RoundTrips, deserialize, serialization_length}
use message_transport.Sharedmem.Segment.{Segment, IsSegment, Found}
use message_transport.Sharedmem.Descriptor.{Descriptor, key, register_client, unregister_client}
use message_transport.Sharedmem.Block.State.{
  num_block, ShmHandle, ok, update, Shared, Client, Others, find_block, register_global_client,
  unregister_global_client,
}
use message_transport.Sharedmem.Block.Operations.{update_handle, is_stale}
use message_transport.Sharedmem.Block.Transfer.{
  refreshed, block_stream, serialize_through, serialize_registered, serialize_message,
  deserialize_message, leave, leave_after, wait_data,
}
use message_transport.Sharedmem.Block.Validity.{IsValid, update_same, update_twice}
use message_transport.Sharedmem.Block.Resize.{IsCurrent, HasSize}
use message_transport.Sharedmem.Block.Access.{Quiet, Coherent, no_local_wait}

pub suc_nonzero : (n : ℕ) → (n + 1 == 0) ≡ false
suc_nonzero n = ground arith

pub suc_pred : (n : ℕ) → n + 1 - 1 ≡ n
suc_pred n = omega arith

module _ (G : Segment) where
  -- The state with other bytes in one block.
  abbrev pub with_message : ℕ → List ℕ → Shared G → Shared G
  with_message p bytes s = record s { segment = G.put_bytes s.segment p bytes }

  pub current_fresh :
      (shm : ShmHandle) (s : Shared G) → IsCurrent G shm s → is_stale G shm s ≡ false
  current_fresh shm s cur = ground (arith, cur.count)

  pub unregister_registered :
      (s : Shared G)
      → unregister_global_client G (record s { num_clients = s.num_clients + 1 }) ≡ some s
  unfolding unregister_global_client
  unregister_registered s = rw (suc_nonzero s.num_clients, suc_pred s.num_clients)

  pub with_message-IsValid :
      (laws : IsSegment G) (p : ℕ) (bytes : List ℕ) (s : Shared G)
      → IsValid G s
      → IsValid G (with_message p bytes s)
  with_message-IsValid laws p bytes s valid = record {
    backed = λ i lt a.
        rw (laws.find-put_bytes s.segment p bytes (key (s.descriptors i))) (valid.backed i lt a);
    distinct = valid.distinct;
    idle = valid.idle;
    owned = λ n there. valid.owned n (rw (laws.find-put_bytes s.segment p bytes n) at there);
  }

  -- The memory behind a current handle holds what the entry records.
  pub room :
      (laws : IsSegment G) (shm : ShmHandle) (s : Shared G)
      → IsValid G s
      → IsCurrent G shm s
      → (s.descriptors shm.handle).size_ ≤ length (G.bytes s.segment shm.ptr)
  room laws shm s valid cur =
      let b = valid.backed shm.handle (cur.inside) (cur.active) in
      rw
        (
          cur.pointer,
          laws.length-bytes s.segment (key (s.descriptors shm.handle)) (b.present),
          b.counted,
        )
        (b.sized)

module _ (G : Segment) (laws : IsSegment G) (others : Others G) {T : Type 0} (S : Serializer T)
    (v old : T)
    (round_trip : (mem : List ℕ)
      → serialization_length S v ≤ length mem
      → RoundTrips S v old mem 0) where
  -- `serialize` through a current handle of a block of the announced size.
  module _ (c : Client G) (valid : IsValid G c.shared) (quiet : Quiet G c.shm.handle c.shared)
      (cur : IsCurrent G c.shm c.shared)
      (sized : HasSize G c.shm.handle (serialization_length S v) c.shared) where
    abbrev pub there : RoundTrips S v old (G.bytes c.shared.segment c.shm.ptr) 0
    there = round_trip _ (rw (← sized) (room G laws c.shm c.shared valid cur))

    abbrev pub sent_bytes : List ℕ
    sent_bytes = there.0.mem

    abbrev pub sent : Shared G
    sent = with_message G c.shm.ptr sent_bytes c.shared

    abbrev registered : Shared G
    registered = record c.shared { num_clients = c.shared.num_clients + 1 }

    registered-refreshed : refreshed G others S c.shm registered ≡ c.shm
    registered-refreshed =
        ap (λ (b : Bool). if b then update_handle G c.shm registered else c.shm)
          (current_fresh G c.shm c.shared cur)

    serialize_there :
        serialize_through G others S v c.shm registered
        ≡ ok tt (record { shm = c.shm; shared = sent })
    unfolding serialize_through
    serialize_there = rw (serialize_through, sized, there.1, unregister_registered G sent)

    pub serialize_message-sent :
        serialize_message G others S v c ≡ ok tt (record { shm = c.shm; shared = sent })
    unfolding serialize_message serialize_registered register_global_client
    serialize_message-sent =
        ap (λ (s : Shared G). serialize_registered G others S v c.shm (register_global_client G s))
          (no_local_wait G others c.shm.handle c.shared (quiet.local))
        ∙ rw (lt→ltb c.shm.handle num_block (cur.inside)) (
            ap (λ (d : ShmHandle). serialize_through G others S v d registered) registered-refreshed
            ∙ serialize_there)

    pub sent-IsValid : IsValid G sent
    sent-IsValid = with_message-IsValid G laws c.shm.ptr sent_bytes c.shared valid

    pub stored : G.bytes sent.segment c.shm.ptr ≡ sent_bytes
    stored = laws.bytes-put_bytes c.shared.segment c.shm.ptr sent_bytes (there.3.same_length)

    -- The subscriber's side: a handle of the same block, from an earlier time.
    module _ (q n : ℕ)
        (co : Coherent G (record { handle = c.shm.handle; ptr = q; resize_count = n }) c.shared)
        (arrives : (s : Shared G) → others.arrival c.shm.handle s ≡ (s, true)) where
      abbrev sub : ShmHandle
      sub = record { handle = c.shm.handle; ptr = q; resize_count = n }

      abbrev entry : Descriptor
      entry = c.shared.descriptors c.shm.handle

      abbrev entered : Shared G
      entered = record {
        num_clients = c.shared.num_clients + 1;
        descriptors =
            update c.shared.descriptors c.shm.handle
              (record entry { num_clients = entry.num_clients + 1 });
        segment = sent.segment;
      }

      entered_entry :
          entered.descriptors c.shm.handle ≡ record entry { num_clients = entry.num_clients + 1 }
      entered_entry = update_same c.shared.descriptors c.shm.handle _

      entered_stale : is_stale G sub entered ≡ is_stale G sub c.shared
      entered_stale = rw entered_entry refl

      entered_pointer : (find_block G c.shm.handle entered).first ≡ c.shm.ptr
      entered_pointer =
          ap (λ (d : Descriptor). (G.find sent.segment (key d)).first) entered_entry
          ∙ rw (laws.find-put_bytes c.shared.segment c.shm.ptr sent_bytes (key entry))
              (sym (cur.pointer))

      -- Either way the handle that is read through is the current one.
      found_current : refreshed G others S sub entered ≡ c.shm
      unfolding update_handle
      found_current = elim (Bool-cases (is_stale G sub c.shared)) [
        | inl e ↦
            ap (λ (b : Bool). if b then update_handle G sub entered else sub) (entered_stale ∙ e)
            ∙ ground (
              arith,
              cur.count,
              entered_pointer,
              ap (λ (d : Descriptor). d.resize_count_) entered_entry,
            )
        | inr e ↦
            let same : n ≡ entry.resize_count_ = ground arith in
            ap (λ (b : Bool). if b then update_handle G sub entered else sub) (entered_stale ∙ e)
            ∙ ground (arith, same, cur.count, co.pointer same, cur.pointer)
      ]

      value_read :
          deserialize S old (block_stream G others S (refreshed G others S sub entered) entered)
          ≡ Stream.ok v there.0
      value_read = rw (found_current, stored, entered_entry, sized) there.2

      read_entered :
          deserialize_message G others S old (record { shm = sub; shared = entered })
          ≡ ok v (record { shm = refreshed G others S sub entered; shared = entered })
      unfolding deserialize_message
      read_entered = rw (lt→ltb c.shm.handle num_block (cur.inside), value_read)

      leave-entered : leave G others S c.shm.handle entered ≡ some sent
      unfolding leave unregister_client
      leave-entered =
          rw
            (
              leave,
              unregister_registered G (record entered { num_clients = c.shared.num_clients }),
              entered_entry,
              suc_nonzero entry.num_clients,
              suc_pred entry.num_clients,
            )
            (ap (λ (f : ℕ → Descriptor). some (record sent { descriptors = f }))
              (update_twice c.shared.descriptors c.shm.handle _ entry refl))

      wait_data-entered :
          wait_data G others S old (record { shm = sub; shared = sent })
          ≡ ok (true, v) (record { shm = c.shm; shared = sent })
      unfolding wait_data leave_after register_global_client register_client
      wait_data-entered =
          rw
            (
              wait_data,
              arrives sent,
              lt→ltb c.shm.handle num_block (cur.inside),
              read_entered,
              leave_after,
              leave-entered,
            )
            (ap (λ (h : ShmHandle). ok (true, v) (record { shm = h; shared = sent })) found_current)

    pub sent-IsCurrent : IsCurrent G c.shm sent
    sent-IsCurrent = record {
      inside = cur.inside;
      active = cur.active;
      there = cur.there;
      pointer =
          cur.pointer
          ∙ sym (
              ap (λ (f : Found). f.first)
                (laws.find-put_bytes c.shared.segment c.shm.ptr sent_bytes
                  (key (c.shared.descriptors c.shm.handle))));
      count = cur.count;
    }

  -- A message that goes through: the publisher's `serialize` stores it and changes nothing but
  -- bytes, the subscriber's `wait_data` reports it, its target holds the message, its handle is the
  -- publisher's, which is current, and the state is what the publisher left, all counters included.
  abbrev pub Delivered : Client G → ShmHandle → Type 0
  Delivered c sub =
      (s : Shared G) × (serialize_message G others S v c
        ≡ ok tt (record { shm = c.shm; shared = s }))
      × IsValid G s
      × IsCurrent G c.shm s
      × (s.num_clients ≡ c.shared.num_clients)
      × (s.descriptors ≡ c.shared.descriptors)
      × (wait_data G others S old (record { shm = sub; shared = s })
          ≡ ok (true, v) (record { shm = c.shm; shared = s }))

  pub wait_data-serialize_message :
      (c : Client G) (q n : ℕ)
      → IsValid G c.shared
      → Quiet G c.shm.handle c.shared
      → IsCurrent G c.shm c.shared
      → HasSize G c.shm.handle (serialization_length S v) c.shared
      → Coherent G (record { handle = c.shm.handle; ptr = q; resize_count = n }) c.shared
      → ((s : Shared G) → others.arrival c.shm.handle s ≡ (s, true))
      → Delivered c (record { handle = c.shm.handle; ptr = q; resize_count = n })
  wait_data-serialize_message c q n valid quiet cur sized co arrives = (
    sent c valid quiet cur sized,
    serialize_message-sent c valid quiet cur sized,
    sent-IsValid c valid quiet cur sized,
    sent-IsCurrent c valid quiet cur sized,
    refl,
    refl,
    wait_data-entered c valid quiet cur sized q n co arrives,
  )
