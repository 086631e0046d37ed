-- ===== src/Channel/Tests.antt =====
-- Two messages from a new publisher to three new subscribers, the second too long for its block.
use message_transport.Common.{◌≡◌, ◌⊎◌, refl, true, [], ◌∷◌, replicate, arith}
use message_transport.Serialization.Message.{RawMessage, message}
use message_transport.Sharedmem.Block.State.{no_handle, ok, Shared}
use message_transport.Sharedmem.Tests.Slots.{slots, slots-IsSegment}
use message_transport.Sharedmem.Tests.States.{alone, blank, blank-IsSettled}
use message_transport.Publisher.Sender.{SharedmemPublisher, new_sharedmem_publisher, publish}
use message_transport.Publisher.Tests.{plenty, eight_bytes, nothing, ready}
use message_transport.Subscriber.Receiver.{
  SharedmemSubscriber, new_sharedmem_subscriber, subscribe_impl,
}
use message_transport.Channel.First.{Unserved}
use message_transport.Channel.Delivers.{AllSendable, Delivers, publish-Delivers}

abbrev twelve_bytes : RawMessage
twelve_bytes = record { timestamp = 10; m_value = replicate 12 7; m_allocated_bytes = 12 }

both_sendable : AllSendable plenty (eight_bytes ∷ twelve_bytes ∷ [])
both_sendable = (
  record {
    good = refl;
    stamp = omega arith;
    small = omega arith;
    space = (replicate 8 0, refl, refl);
  },
  (
    record {
      good = refl;
      stamp = omega arith;
      small = omega arith;
      space = (replicate 12 0, refl, refl);
    },
    tt,
  ),
)

publish-Delivers_example :
    (p : SharedmemPublisher) × (t : Shared slots) × (publish slots alone ready
        (message plenty)
        eight_bytes
        (new_sharedmem_publisher (55 ∷ []), blank)
      ≡ ok tt (p, t))
    × (((p.impl.shm_handle_ ≡ no_handle)
          × Unserved slots alone ready plenty (55 ∷ []) eight_bytes blank)
        ⊎ ((q : SharedmemSubscriber) × (subscribe_impl slots alone ready
                (55 ∷ [])
                (new_sharedmem_subscriber, t)
              ≡ ok tt (q, t))
            × (q.rec_thread_ ≡ true)
            × Delivers slots slots-IsSegment alone ready plenty nothing refl
                (λ i s. refl)
                3
                (eight_bytes ∷ twelve_bytes ∷ [])
                (record { publisher = p; subscribers = replicate 3 q; shared = t })))
publish-Delivers_example =
    publish-Delivers slots slots-IsSegment alone ready plenty nothing refl (λ i s. refl) (55 ∷ [])
      blank eight_bytes 3 (eight_bytes ∷ twelve_bytes ∷ []) blank-IsSettled refl refl
      (both_sendable.0) both_sendable
