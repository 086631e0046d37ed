-- ===== src/Subscriber/Tests.antt =====
-- The theorems on subscribers at concrete inputs.
use message_transport.Common.{ℕ, ◌<◌, ◌≡◌, ◌≢◌, ◌⊎◌, refl, true, false, none, List, [], ◌∷◌, arith}
use message_transport.Sharedmem.Descriptor.{key, name_of}
use message_transport.Sharedmem.Block.State.{num_block, ok, aborted, thrown, Shared}
use message_transport.Sharedmem.Block.Resize.{IsCurrent}
use message_transport.Sharedmem.Tests.Slots.{slots, slots-IsSegment}
use message_transport.Sharedmem.Tests.States.{alone, one_block, one_block-IsValid, seven_handle}
use message_transport.Publisher.Sender.{c_str, opened, Environment}
use message_transport.Subscriber.Receiver.{
  SharedmemSubscriber, new_sharedmem_subscriber, subscribe_impl,
}
use message_transport.Subscriber.Handle.{
  Subscriber, get_topic, get_num_publishers, shutdown, to_pointer, do_subscribe,
}
use message_transport.Subscriber.Subscribing.{do_subscribe_invalid, subscribe_impl_cases}
use message_transport.Common.{◌==◌}
use message_transport.Serialization.Scalars.{boolean}
use message_transport.Subscriber.Loop.{receive_thread, Ended, receive_thread-Ended}

abbrev ready : Environment
ready = record { opening = opened; manager = true; beyond = λ i. 0 }

do_subscribe_invalid_example :
    (x : Subscriber) × (do_subscribe slots alone ready
        (55 ∷ [])
        []
        (record { impl_ = none }, one_block)
      ≡ thrown (x, one_block))
    × (to_pointer x ≡ true)
    × (get_topic x ≡ none)
    × (get_num_publishers x ≡ none)
    × (shutdown x ≡ none)
    × ((topic' transport' : List ℕ)
        → do_subscribe slots alone ready topic' transport' (x, one_block) ≡ aborted)
do_subscribe_invalid_example =
    do_subscribe_invalid slots alone ready (55 ∷ []) [] one_block (λ e. ground (arith, e))

subscribe_impl_cases_example :
    (p : SharedmemSubscriber) × (subscribe_impl slots alone ready
        (55 ∷ [])
        (new_sharedmem_subscriber, one_block)
      ≡ ok tt (p, one_block))
    × (((p.rec_thread_ ≡ true)
          × (p.is_running ≡ true)
          × (p.user_cb_ ≡ true)
          × IsCurrent slots p.shm_handle_ one_block
          × (key (one_block.descriptors p.shm_handle_.handle) ≡ name_of (c_str (λ i. 0) (55 ∷ []))))
        ⊎ ((p.rec_thread_ ≡ false)
            × ((later : Environment) (topic' : List ℕ) (t : Shared slots)
                → subscribe_impl slots alone later topic' (p, t) ≡ thrown (p, t))
            × ((i : ℕ)
                → i < num_block
                → (one_block.descriptors i).active_ ≡ true
                → key (one_block.descriptors i) ≢ name_of (c_str (λ i. 0) (55 ∷ [])))))
subscribe_impl_cases_example =
    subscribe_impl_cases slots alone ready slots-IsSegment (55 ∷ []) one_block one_block-IsValid
      refl refl refl

abbrev listener : SharedmemSubscriber
listener = record {
  is_running = true;
  base_topic_ = 55 ∷ [];
  user_cb_ = true;
  rec_thread_ = true;
  connected = true;
  shm_handle_ = seven_handle;
}

receive_thread-Ended_example :
    Ended slots alone boolean false 2
      (receive_thread slots alone boolean false (λ i. i == 2) 3 0 (listener, one_block))
receive_thread-Ended_example =
    receive_thread-Ended slots alone boolean false (λ i. i == 2) 2 3 listener one_block refl
      (omega arith)
