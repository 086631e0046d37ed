-- ===== src/Channel/First.antt =====
-- The first message of a new publisher, which connects it, and the subscribers that then come.
use message_transport.Common.{
  ℕ, ◌≡◌, ◌⊎◌, inl, inr, refl, sym, ap, ◌∙◌, subst, true, false, Option, List, [], replicate,
  All-replicate,
}
use message_transport.Serialization.Message.{RawMessage, message}
use message_transport.Serialization.Buffers.{IsMessage}
use message_transport.Sharedmem.Segment.{Segment, IsSegment}
use message_transport.Sharedmem.Descriptor.{key, name_of}
use message_transport.Sharedmem.Block.State.{
  ShmHandle, no_handle, is_valid, ok, bad_alloc, Shared, Others,
}
use message_transport.Sharedmem.Block.Operations.{allocate_block}
use message_transport.Sharedmem.Block.Access.{Quiet, NoRoom}
use message_transport.Sharedmem.Block.Ends.{NoSpace}
use message_transport.Sharedmem.Block.Allocate.{Allocated}
use message_transport.Sharedmem.Session.Steps.{IsFull, IsSettled}
use message_transport.Publisher.Sender.{
  c_str, Environment, opened, SharedmemPublisherImpl, SharedmemPublisher, new_impl,
  new_sharedmem_publisher, lift, initialise, publish_msg, publish_on, first_publish, publish,
}
use message_transport.Publisher.Initialise.{initialise-Attached}
use message_transport.Subscriber.Receiver.{
  SharedmemSubscriber, new_sharedmem_subscriber, subscribe_impl,
}
use message_transport.Subscriber.Subscribing.{subscribe_impl_cases}
use message_transport.Channel.Linked.{
  IsReady, IsLinked, published, announced, IsSendable, published_for,
}

module _ (G : Segment) (others : Others G) (env : Environment) (alloc : ℕ → Option (List ℕ)) where
  -- Why a first `publish` on the table `s` leaves the publisher without a block: the table is full of
  -- other names, `allocateBlock` threw as the segment had no space, or there is no room for the message.
  abbrev pub Unserved : List ℕ → RawMessage → Shared G → Type 0
  Unserved topic m s =
      IsFull G (c_str env.beyond topic) s
      ⊎ ((t : Shared G) × (allocate_block G others (c_str env.beyond topic) 16 s ≡ bad_alloc t)
          × NoSpace G (c_str env.beyond topic) 16 s)
      ⊎ ((shm : ShmHandle) × (t : Shared G) × (allocate_block G others (c_str env.beyond topic) 16 s
            ≡ ok shm t)
          × NoRoom G shm.handle (announced alloc m) t)

module _ (G : Segment) (laws : IsSegment G) (others : Others G) (env : Environment)
    (alloc : ℕ → Option (List ℕ)) (old : RawMessage) (target : IsMessage old)
    (arrives : (i : ℕ) (s : Shared G) → others.arrival i s ≡ (s, true)) where
  -- The publisher with a block of the topic's name, linked to nobody so far.
  abbrev pub Opens : List ℕ → SharedmemPublisher → Shared G → Type 0
  Opens topic p t =
      IsLinked G (record { publisher = p; subscribers = []; shared = t })
      × (key (t.descriptors p.impl.shm_handle_.handle) ≡ name_of (c_str env.beyond topic))

  abbrev pub FirstPublish : List ℕ → RawMessage → Shared G → Type 0
  FirstPublish topic m s =
      (p : SharedmemPublisher) × (t : Shared G) × (publish G others env (message alloc) m
          (new_sharedmem_publisher topic, s)
        ≡ ok tt (p, t))
      × (((p.impl.shm_handle_ ≡ no_handle) × Unserved G others env alloc topic m s)
          ⊎ Opens topic p t)

  module _ (topic : List ℕ) (m : RawMessage) (s : Shared G) (settled : IsSettled G s) where
    -- The publisher between `initialise` and `publish_msg`.
    abbrev before : SharedmemPublisherImpl → SharedmemPublisher
    before i = record { impl = i; first_run_ = false; base_topic_ = topic }

    then_published :
        (i : SharedmemPublisherImpl) (n : ℕ) (t : Shared G)
        → initialise G others env topic (new_impl, s) ≡ ok n (i, t)
        → publish G others env (message alloc) m (new_sharedmem_publisher topic, s)
          ≡ lift
              (published G (before i))
              (publish_msg G others (message alloc) m (record { shm = i.shm_handle_; shared = t }))
    unfolding publish first_publish publish_on new_sharedmem_publisher
    then_published i n t e =
        ap (first_publish G others env (message alloc) m (new_sharedmem_publisher topic)) e

    -- Where `initialise` left no handle, nothing is sent.
    without_handle :
        (i : SharedmemPublisherImpl) (n : ℕ) (t : Shared G)
        → initialise G others env topic (new_impl, s) ≡ ok n (i, t)
        → i.shm_handle_ ≡ no_handle
        → Unserved G others env alloc topic m s
        → FirstPublish topic m s
    unfolding publish_msg is_valid lift
    without_handle i n t e none_left why = (
      before i,
      t,
      then_published i n t e
          ∙ ap
              (λ (h : ShmHandle).
                lift (published G (before i))
                  (publish_msg G others (message alloc) m (record { shm = h; shared = t })))
              none_left
          ∙ ap
              (λ (h : ShmHandle).
                ok tt (record (before i) { impl = record i { shm_handle_ = h } }, t))
              (sym none_left),
      inl (none_left, why),
    )

    with_handle :
        (i : SharedmemPublisherImpl) (n : ℕ) (t : Shared G)
        → initialise G others env topic (new_impl, s) ≡ ok n (i, t)
        → i.client_registered ≡ true
        → allocate_block G others (c_str env.beyond topic) 16 s ≡ ok i.shm_handle_ t
        → Allocated G (c_str env.beyond topic) 16 s i.shm_handle_ t
        → IsSendable alloc m
        → FirstPublish topic m s
    unfolding lift
    with_handle i n t e known placed good sendable =
        let h = i.shm_handle_.handle in
        let link : IsLinked G (record { publisher = before i; subscribers = []; shared = t }) =
          record {
            valid = good.valid;
            registered = known;
            writer = good.current;
            ready = tt;
            quiet = record {
              global = good.clients.0 ∙ settled.global;
              local = good.clients.1 ∙ settled.local h;
            };
          } in
        let (c, sent, (valid, ends)) =
          published_for G laws others env alloc old target arrives m
            (record { publisher = before i; subscribers = []; shared = t }) sendable link
            i.shm_handle_ refl good.current in
        let done = then_published i n t e ∙ ap (lift (published G (before i))) sent in
        (
          (published G (before i) c).0,
          c.shared,
          done,
          elim ends [
            | inl (none_left, _, short) ↦
                inl (none_left, inr (inr (i.shm_handle_, t, placed, short)))
            | inr (current, same, _, quiet, named, _) ↦ inr (
              record {
                valid = valid;
                registered = known;
                writer = current;
                ready = tt;
                quiet = subst (λ (x : ℕ). Quiet G x c.shared) (sym same) quiet;
              },
              ap (λ (x : ℕ). key (c.shared.descriptors x)) same ∙ named ∙ good.named,
            )
          ],
        )

    pub publish-FirstPublish :
        env.opening ≡ opened → env.manager ≡ true → IsSendable alloc m → FirstPublish topic m s
    unfolding new_impl
    publish-FirstPublish there manager sendable =
        elim (initialise-Attached G others env laws topic new_impl s settled.valid settled.global
          refl there manager) [
            | inr (t, e, failed, space) ↦ without_handle _ _ t e refl (inr (inl (t, failed, space)))
            | inl (shm, t, e, placed, answers) ↦ elim answers [
              | inl good ↦ with_handle _ _ t e refl placed good sendable
              | inr (none_left, _, crowded) ↦ without_handle _ _ t e none_left (inl crowded)
            ]
          ]

  -- New subscribers of the topic of a publisher that has a block: they are linked to it.
  pub subscribe_impl-IsLinked :
      (topic : List ℕ) (t : Shared G) (p : SharedmemPublisher) (k : ℕ)
      → Opens topic p t
      → env.opening ≡ opened
      → env.manager ≡ true
      → (q : SharedmemSubscriber) × (subscribe_impl G others env topic (new_sharedmem_subscriber, t)
          ≡ ok tt (q, t))
        × (q.rec_thread_ ≡ true)
        × IsLinked G (record { publisher = p; subscribers = replicate k q; shared = t })
  subscribe_impl-IsLinked topic t p k (link, named) there manager =
      let h = p.impl.shm_handle_.handle in
      let (q, e, ends) =
        subscribe_impl_cases G others env laws topic t link.valid link.quiet.global there manager in
      elim ends [
        | inr (_, _, nobody) ↦ absurd (nobody h link.writer.inside link.writer.active named)
        | inl (thread, on, called, cur, named') ↦ (
          q,
          e,
          thread,
          record {
            valid = link.valid;
            registered = link.registered;
            writer = link.writer;
            ready = All-replicate (IsReady G h t) k q (record {
              running = on;
              callback = called;
              reader = cur;
              same_block =
                  link.valid.distinct q.shm_handle_.handle h cur.inside link.writer.inside
                    cur.active link.writer.active (named' ∙ sym named);
            });
            quiet = link.quiet;
          },
        )
      ]
