-- ===== src/Publisher/Delivery.antt =====
-- What a publisher that is connected sends, and what a subscriber then reads.
use message_transport.Common.{
  ℕ, ◌+◌, ◌^◌, ◌≤◌, ◌<◌, ◌≡◌, ◌⊎◌, inl, inr, refl, sym, ap, ◌∙◌, true, false, Option, List, length,
  ◌==◌, arith,
}
use message_transport.Serialization.Interface.{serialization_length, RoundTrips}
use message_transport.Serialization.Message.{RawMessage, message, message_length, get_data_length}
use message_transport.Serialization.MessageLaws.{message_round_trip}
use message_transport.Serialization.Buffers.{IsMessage, Allocates}
use message_transport.Sharedmem.Segment.{Segment, IsSegment}
use message_transport.Sharedmem.Descriptor.{Descriptor, key}
use message_transport.Sharedmem.Block.State.{
  ShmHandle, no_handle, is_valid, ok, Shared, Client, Others, find_block,
}
use message_transport.Sharedmem.Block.Transfer.{serialize_message, wait_data}
use message_transport.Sharedmem.Block.Validity.{IsValid}
use message_transport.Sharedmem.Block.Resize.{IsCurrent, HasSize}
use message_transport.Sharedmem.Block.Reallocate.{reallocate_block-Resized}
use message_transport.Sharedmem.Block.Access.{Quiet, Coherent, NoRoom, Resized}
use message_transport.Sharedmem.Block.Exchange.{Delivered, wait_data-serialize_message}
use message_transport.Publisher.Sender.{send_through, publish_msg}
use native.Mathlib.Nat.{mod-eq_of_lt}

module _ (G : Segment) (laws : IsSegment G) (others : Others G) (alloc : ℕ → Option (List ℕ))
    (m old : RawMessage) (good : IsMessage m) (target : IsMessage old)
    (stamp : m.timestamp < 2 ^ 64) (small : 8 + m.m_allocated_bytes < 2 ^ 32)
    (room : Allocates alloc m.m_allocated_bytes) where
  message_size : serialization_length (message alloc) m ≡ 8 + m.m_allocated_bytes
  unfolding serialization_length message_length get_data_length
  message_size = mod-eq_of_lt small

  pub message_goes_through :
      (mem : List ℕ)
      → serialization_length (message alloc) m ≤ length mem
      → RoundTrips (message alloc) m old mem 0
  message_goes_through mem fits =
      message_round_trip alloc m old mem 0 good target stamp small room
        (omega (arith, message_size, fits))

  -- A raw message whose buffer has the recorded size goes through a block of its announced length.
  -- The table is valid, no client waits, the sender's handle is current, the reader's handle is from
  -- any time at which the count was another or the pointer the same, the reader can allocate, and the
  -- wait ends with the notification. Then `serialize` returns, keeps the table valid and the handle
  -- current, and changes no descriptor and not the manager's counter; and `wait_data` reports the
  -- message, brings the reader's handle up to date and leaves the state as the sender left it, both
  -- counters included.
  pub raw_message-Delivered :
      (c : Client G) (q n : ℕ)
      → IsValid G c.shared
      → Quiet G c.shm.handle c.shared
      → IsCurrent G c.shm c.shared
      → HasSize G c.shm.handle (serialization_length (message alloc) m) c.shared
      → Coherent G (record { handle = c.shm.handle; ptr = q; resize_count = n }) c.shared
      → ((s : Shared G) → others.arrival c.shm.handle s ≡ (s, true))
      → Delivered G laws others
          (message alloc)
          m
          old
          message_goes_through
          c
          (record { handle = c.shm.handle; ptr = q; resize_count = n })
  raw_message-Delivered c q n =
      wait_data-serialize_message G laws others (message alloc) m old message_goes_through c q n

  abbrev pub announced_size : ℕ
  announced_size = serialization_length (message alloc) m

  -- What a publish leaves: a current handle, no client registered, and the message read through
  -- `sub`, which only brings that handle up to date; or, where there was no room for it, no handle and
  -- a free entry.
  abbrev pub Published : Client G → ShmHandle → Client G → Type 0
  Published c sub c' =
      IsValid G c'.shared
      × (((c'.shm ≡ no_handle)
            × ((c'.shared.descriptors c.shm.handle).active_ ≡ false)
            × NoRoom G c.shm.handle announced_size c.shared)
          ⊎ (IsCurrent G c'.shm c'.shared
              × (c'.shm.handle ≡ c.shm.handle)
              × ¬ NoRoom G c.shm.handle announced_size c.shared
              × Quiet G c.shm.handle c'.shared
              × (key (c'.shared.descriptors c.shm.handle) ≡ key (c.shared.descriptors c.shm.handle))
              × (wait_data G others (message alloc) old (record { shm = sub; shared = c'.shared })
                  ≡ ok (true, m) c')))

  module _ (c : Client G) (sub : ShmHandle) (same_block : sub.handle ≡ c.shm.handle)
      (quiet : Quiet G c.shm.handle c.shared) (reader : IsCurrent G sub c.shared)
      (arrives : (i : ℕ) (s : Shared G) → others.arrival i s ≡ (s, true)) where
    -- After the block was resized: the reader's handle is stale, or its pointer still holds.
    module _ (r : Client G) (resized : Resized G c.shm.handle announced_size c.shared r)
        (cur : IsCurrent G r.shm r.shared) (same : r.shm.handle ≡ c.shm.handle) where
      abbrev reader_now : ShmHandle
      reader_now = record { handle = r.shm.handle; ptr = sub.ptr; resize_count = sub.resize_count }

      reader_now-same : reader_now ≡ sub
      reader_now-same =
          ap (λ (h : ℕ). record { handle = h; ptr = sub.ptr; resize_count = sub.resize_count })
            (same ∙ sym same_block)

      still_Quiet : Quiet G r.shm.handle r.shared
      still_Quiet = rw same (record {
        global = resized.clients.0 ∙ quiet.global;
        local = resized.clients.1 ∙ quiet.local;
      })

      reader_Coherent : Coherent G reader_now r.shared
      reader_Coherent = record {
        inside = cur.inside;
        active = cur.active;
        there = reader.there;
        pointer = λ e.
            let count = ap (λ (h : ℕ). (c.shared.descriptors h).resize_count_) same_block in
            let kept =
              resized.steady (rw same at cur.active) (sym (rw same at e) ∙ reader.count ∙ count) in
            reader.pointer
            ∙ ap (λ (h : ℕ). (find_block G h c.shared).first) same_block
            ∙ sym kept
            ∙ ap (λ (h : ℕ). (find_block G h r.shared).first) (sym same);
      }

      delivered :
          HasSize G c.shm.handle announced_size r.shared
          → ¬ NoRoom G c.shm.handle announced_size c.shared
          → (c' : Client G) × (serialize_message G others (message alloc) m r ≡ ok tt c')
            × Published c sub c'
      delivered sized room_left =
          let (s, sent, valid, current, count, table, read) =
            raw_message-Delivered r sub.ptr sub.resize_count (resized.valid) still_Quiet cur
              (rw same sized) reader_Coherent (arrives r.shm.handle) in
          (
            record { shm = r.shm; shared = s },
            sent,
            (
              valid,
              inr (
                current,
                same,
                room_left,
                record {
                  global = count ∙ resized.clients.0 ∙ quiet.global;
                  local =
                      ap (λ (f : ℕ → Descriptor). (f c.shm.handle).num_clients) table
                      ∙ resized.clients.1
                      ∙ quiet.local;
                },
                ap (λ (f : ℕ → Descriptor). key (f c.shm.handle)) table
                    ∙ resized.named (rw same at cur.active),
                rw reader_now-same at read,
              ),
            ),
          )

    -- A message published through a handle of an active entry, whose pointer holds where its count is
    -- the entry's, in a valid table where no client is registered with the manager or the block, to a
    -- subscriber whose handle of the block is current: `publish_msg` returns and keeps the table valid.
    -- Unless there is no room, the publisher's handle is then a current one of the same block, under its
    -- name, no client is registered, and the subscriber's next `wait_data` reports exactly this message, also
    -- where the block had to move, ends with the publisher's handle and changes nothing else. There is
    -- no room where the block is smaller than the announced length and, once it is destroyed, the
    -- segment fails to construct one of that length; then, and only then, the publisher has no handle
    -- any more and the entry is free. The message's buffer has the recorded size, its length and time
    -- fit their fields, the subscriber can allocate, and its wait ends with a notification.
    pub publish_msg-Published :
        IsValid G c.shared
        → Coherent G c.shm c.shared
        → (c' : Client G) × (publish_msg G others (message alloc) m c ≡ ok tt c')
          × Published c sub c'
    unfolding publish_msg is_valid send_through
    publish_msg-Published valid co =
        let wide : announced_size < 2 ^ 32 = rw message_size small in
        let (r, e, resized) =
          reallocate_block-Resized G laws others announced_size wide c valid quiet co in
        elim (resized.result) [
          | inl (cur, same, sized, room_left) ↦
              let (c', sent, published) = delivered r resized cur same sized room_left in
              (c', rw (present, e) (send_valid r cur ∙ sent), published)
          | inr (none_left, free, short) ↦ (
            r,
            rw (present, e) (send_nothing r none_left),
            (resized.valid, inl (none_left, free, short)),
          )
        ]
      where
        present : (c.shm.ptr == 0) ≡ false
        present = ground (arith, co.there)

        send_valid :
            (r : Client G)
            → IsCurrent G r.shm r.shared
            → send_through G others (message alloc) m (ok tt r)
              ≡ serialize_message G others (message alloc) m r
        send_valid r cur =
            let there : (r.shm.ptr == 0) ≡ false = ground (arith, cur.there) in rw there refl

        send_nothing :
            (r : Client G)
            → r.shm ≡ no_handle
            → send_through G others (message alloc) m (ok tt r) ≡ ok tt r
        send_nothing r none_left =
            let there : (r.shm.ptr == 0) ≡ true = rw none_left refl in rw there refl
