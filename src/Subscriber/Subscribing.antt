-- ===== src/Subscriber/Subscribing.antt =====
-- Which transports a subscriber takes, and what is left when subscribing fails.
use message_transport.Common.{
  ℕ, ◌<◌, ◌≡◌, ◌≢◌, ◌⊎◌, inl, inr, refl, true, false, none, some, List, [], ◌∷◌, Bool-cases, ◌==◌,
  arith,
}
use message_transport.Sharedmem.Segment.{Segment, IsSegment}
use message_transport.Sharedmem.Descriptor.{key, name_of}
use message_transport.Sharedmem.Block.State.{
  num_block, no_handle, is_valid, ok, aborted, thrown, Shared, Others,
}
use message_transport.Sharedmem.Block.Validity.{IsValid}
use message_transport.Sharedmem.Block.Resize.{IsCurrent}
use message_transport.Sharedmem.Block.Lookup.{find_handle_cases}
use message_transport.Publisher.Sender.{c_str, Environment, opened}
use message_transport.Publisher.Plugins.{same_string}
use message_transport.Publisher.Counting.{same_string_iff, sharedmem}
use message_transport.Subscriber.Receiver.{
  SharedmemSubscriber, new_sharedmem_subscriber, start_thread, open_segment, start_receiving,
  subscribe_impl,
}
use message_transport.Subscriber.Handle.{
  sharedmem_sub, get_lookup_name, SubscriberImpl, new_subscriber_impl, impl_is_valid, shutdown_impl,
  reset, Subscriber, get_topic, get_num_publishers, shutdown, to_pointer, subscribe_new,
  do_subscribe,
}
use mathlib.Core.List.{append_cancel_right}

reset_cases :
    (transport : List ℕ) (i : SubscriberImpl) → transport ≢ sharedmem → reset transport i ≡ none
unfolding reset get_lookup_name
reset_cases transport i other =
    elim (Bool-cases (same_string (get_lookup_name transport) sharedmem_sub)) [
      | inl e ↦ absurd (
          other (
            append_cancel_right transport sharedmem (95 ∷ 115 ∷ 117 ∷ 98 ∷ [])
              ((same_string_iff (get_lookup_name transport) sharedmem_sub).0 e)))
      | inr e ↦ rw e refl
    ]

module _ (G : Segment) (others : Others G) (env : Environment) where
  -- Subscribing an empty subscriber to a transport other than "sharedmem" throws, and the subscriber
  -- then looks valid although nothing is behind it: `getTopic`, `getNumPublishers` and `shutdown`
  -- dereference a null pointer, and so does the destructor at the next `do_subscribe`.
  pub do_subscribe_invalid :
      (topic transport : List ℕ) (s : Shared G)
      → transport ≢ sharedmem
      → (x : Subscriber) × (do_subscribe G others env topic transport (record { impl_ = none }, s)
          ≡ thrown (x, s))
        × (to_pointer x ≡ true)
        × (get_topic x ≡ none)
        × (get_num_publishers x ≡ none)
        × (shutdown x ≡ none)
        × ((topic' transport' : List ℕ)
            → do_subscribe G others env topic' transport' (x, s) ≡ aborted)
  unfolding do_subscribe subscribe_new shutdown shutdown_impl to_pointer impl_is_valid get_topic
      get_num_publishers new_subscriber_impl
  do_subscribe_invalid topic transport s other = (
    record { impl_ = some new_subscriber_impl },
    rw (do_subscribe, subscribe_new, reset_cases transport new_subscriber_impl other) refl,
    refl,
    refl,
    refl,
    refl,
    λ topic' transport'. refl,
  )

  -- A new plugin that subscribes to a topic, in a process that has the segment and its manager, on a
  -- valid table where nobody waits. If a block has the topic's name, the thread runs, with a
  -- callback, on a current handle of that block. If none has, `subscribe` returns as well, but no thread runs, and a second
  -- `subscribe` throws, in any environment and state: the subscription is lost even if the publisher
  -- comes later. The shared state stays as it is.
  pub subscribe_impl_cases :
      (laws : IsSegment G) (topic : List ℕ) (s : Shared G)
      → IsValid G s
      → s.num_clients ≡ 0
      → env.opening ≡ opened
      → env.manager ≡ true
      → (p : SharedmemSubscriber) × (subscribe_impl G others env topic (new_sharedmem_subscriber, s)
          ≡ ok tt (p, s))
        × (((p.rec_thread_ ≡ true)
              × (p.is_running ≡ true)
              × (p.user_cb_ ≡ true)
              × IsCurrent G p.shm_handle_ s
              × (key (s.descriptors p.shm_handle_.handle) ≡ name_of (c_str env.beyond topic)))
            ⊎ ((p.rec_thread_ ≡ false)
                × ((later : Environment) (topic' : List ℕ) (t : Shared G)
                    → subscribe_impl G others later topic' (p, t) ≡ thrown (p, t))
                × ((i : ℕ)
                    → i < num_block
                    → (s.descriptors i).active_ ≡ true
                    → key (s.descriptors i) ≢ name_of (c_str env.beyond topic))))
  unfolding subscribe_impl start_receiving open_segment start_thread new_sharedmem_subscriber
      is_valid
  subscribe_impl_cases laws topic s valid quiet there manager =
      elim (find_handle_cases G laws others (c_str env.beyond topic) s valid quiet) [
        | inl (shm, found, cur, named) ↦
            let real : (shm.ptr == 0) ≡ false = ground (arith, cur.there) in
            (
              record (running topic) { connected = true; shm_handle_ = shm; rec_thread_ = true },
              rw (there, manager, open_segment, found, start_thread, real) refl,
              inl (refl, refl, refl, cur, named),
            )
        | inr (missing, nobody) ↦ (
          record (running topic) { connected = false; shm_handle_ = no_handle },
          rw (there, manager, open_segment, missing, start_thread) refl,
          inr (refl, (λ later topic' t. refl), nobody),
        )
      ]
    where
      running : List ℕ → SharedmemSubscriber
      running topic = record new_sharedmem_subscriber {
        is_running = true;
        base_topic_ = topic;
        user_cb_ = true;
      }
