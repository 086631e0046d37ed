-- ===== src/Channel/Linked.antt =====
-- One message from a connected publisher to connected subscribers.
use message_transport.Common.{
  ℕ, ◌+◌, ◌^◌, ◌<◌, ◌≡◌, ◌≢◌, ◌⊎◌, inl, inr, refl, sym, ap, ◌∙◌, subst, Bool, true, false, Option,
  none, some, List, [], ◌∷◌, map, All, length, suc, Bool-cases, if◌then◌else◌,
}
use message_transport.Serialization.Serializer.{Serializer}
use message_transport.Serialization.Interface.{serialization_length}
use message_transport.Serialization.Message.{RawMessage, message}
use message_transport.Serialization.Buffers.{IsMessage, Allocates}
use message_transport.Sharedmem.Segment.{Segment, IsSegment}
use message_transport.Sharedmem.Block.State.{
  ShmHandle, no_handle, ok, ok-inj, Shared, Client, Others,
}
use message_transport.Sharedmem.Block.Transfer.{wait_data}
use message_transport.Sharedmem.Block.Validity.{IsValid}
use message_transport.Sharedmem.Block.Resize.{IsCurrent}
use message_transport.Sharedmem.Block.Access.{Quiet, Coherent, NoRoom}
use message_transport.Publisher.Sender.{
  SharedmemPublisher, Environment, lift, initialise, publish_msg, publish_on, first_publish,
  publish,
}
use message_transport.Publisher.Delivery.{Published, publish_msg-Published}
use message_transport.Subscriber.Receiver.{SharedmemSubscriber, receive, hand_over}
use message_transport.Channel.Pass.{
  Link, and_others, then_others, receive_each, receive_after, pass,
}

module _ (G : Segment) where
  -- A subscriber that runs, with a current handle of the block `i`.
  pub record IsReady (i : ℕ) (s : Shared G) (q : SharedmemSubscriber) : Type 0 where
    pub running : q.is_running ≡ true
    pub callback : q.user_cb_ ≡ true
    pub reader : IsCurrent G q.shm_handle_ s
    pub same_block : q.shm_handle_.handle ≡ i

  -- All sides have a current handle of the same block, nobody is registered with it, the publisher
  -- has connected and the subscribers run.
  pub record IsLinked (l : Link G) : Type 0 where
    pub valid : IsValid G l.shared
    pub registered : l.publisher.impl.client_registered ≡ true
    pub writer : IsCurrent G l.publisher.impl.shm_handle_ l.shared
    pub ready : All (IsReady l.publisher.impl.shm_handle_.handle l.shared) l.subscribers
    pub quiet : Quiet G l.publisher.impl.shm_handle_.handle l.shared

  pub current-Coherent : (shm : ShmHandle) (s : Shared G) → IsCurrent G shm s → Coherent G shm s
  current-Coherent shm s cur = record {
    inside = cur.inside;
    active = cur.active;
    there = cur.there;
    pointer = λ e. cur.pointer;
  }

  -- The publisher after `publish_msg`.
  abbrev pub published : SharedmemPublisher → Client G → SharedmemPublisher × Shared G
  published p c =
      (record p { impl = record p.impl { shm_handle_ = c.shm }; first_run_ = false }, c.shared)

  -- The subscribers after `wait_data`.
  abbrev pub informed : Client G → List SharedmemSubscriber → List SharedmemSubscriber
  informed c qs = map (λ (q : SharedmemSubscriber). record q { shm_handle_ = c.shm }) qs

  informed-IsReady :
      (c : Client G) (s : Shared G) (i : ℕ) (qs : List SharedmemSubscriber)
      → IsCurrent G c.shm c.shared
      → All (IsReady i s) qs
      → All (IsReady c.shm.handle c.shared) (informed c qs)
  informed-IsReady c s i [] cur ready = tt
  informed-IsReady c s i (q ∷ qs) cur (one, more) = (
    record { running = one.running; callback = one.callback; reader = cur; same_block = refl },
    informed-IsReady c s i qs cur more,
  )

  length-informed :
      (c : Client G) (qs : List SharedmemSubscriber) → length (informed c qs) ≡ length qs
  length-informed c [] = refl
  length-informed c (q ∷ qs) = ap suc (length-informed c qs)

module _ (G : Segment) (others : Others G) (env : Environment) {T : Type 0} (S : Serializer T) where
  publish-registered :
      (msg : T) (p : SharedmemPublisher) (s : Shared G)
      → p.impl.client_registered ≡ true
      → publish G others env S msg (p, s)
        ≡ lift
            (published G p)
            (publish_msg G others S msg (record { shm = p.impl.shm_handle_; shared = s }))
  unfolding publish first_publish publish_on initialise
  publish-registered msg p s e = elim (Bool-cases p.first_run_) [
    | inl first ↦ rw (first, e, first_publish) refl
    | inr later ↦ rw later refl
  ]

  -- A message that `wait_data` reports goes to the callback.
  receive-arrived :
      (old msg : T) (q : SharedmemSubscriber) (s : Shared G) (c : Client G)
      → q.is_running ≡ true
      → q.user_cb_ ≡ true
      → wait_data G others S old (record { shm = q.shm_handle_; shared = s }) ≡ ok (true, msg) c
      → receive G others S old (q, s) ≡ ok (some msg) (record q { shm_handle_ = c.shm }, c.shared)
  unfolding receive hand_over
  receive-arrived old msg q s c on called e =
      ap
        (λ (b : Bool).
          if b
          then hand_over q (wait_data G others S old (record { shm = q.shm_handle_; shared = s }))
          else ok none (q, s))
        on
      ∙ ap (hand_over q) e
      ∙ ap
          (λ (b : Bool).
            ok (if b then some msg else none) (record q { shm_handle_ = c.shm }, c.shared))
          called

  -- The subscriber will read `msg` and leave the state as it is.
  abbrev pub Reads : T → T → Client G → SharedmemSubscriber → Type 0
  Reads old msg c q =
      (q.is_running ≡ true)
      × (q.user_cb_ ≡ true)
      × (wait_data G others S old (record { shm = q.shm_handle_; shared = c.shared })
          ≡ ok (true, msg) c)

  receive_each-Reads :
      (old msg : T) (c : Client G) (qs : List SharedmemSubscriber)
      → All (Reads old msg c) qs
      → receive_each G others env S old qs c.shared
        ≡ ok (map (λ (q : SharedmemSubscriber). some msg) qs) (informed G c qs, c.shared)
  unfolding receive_each then_others and_others
  receive_each-Reads old msg c [] reads = refl
  receive_each-Reads old msg c (q ∷ qs) ((on, called, read), more) =
      ap (then_others G others env S old qs (receive_each G others env S old qs))
        (receive-arrived old msg q c.shared c on called read)
      ∙ ap (and_others G others env S old (some msg) (record q { shm_handle_ = c.shm }))
          (receive_each-Reads old msg c qs more)

-- What `publish` and the subscriber's buffer ask of a raw message.
pub record IsSendable (alloc : ℕ → Option (List ℕ)) (m : RawMessage) : Type 0 where
  pub good : IsMessage m
  pub stamp : m.timestamp < 2 ^ 64
  pub small : 8 + m.m_allocated_bytes < 2 ^ 32
  pub space : Allocates alloc m.m_allocated_bytes

-- The bytes that `publish_msg` asks for.
abbrev pub announced : (ℕ → Option (List ℕ)) → RawMessage → ℕ
announced alloc m = serialization_length (message alloc) m

module _ (G : Segment) (laws : IsSegment G) (others : Others G) (env : Environment)
    (alloc : ℕ → Option (List ℕ)) (old : RawMessage) (target : IsMessage old)
    (arrives : (i : ℕ) (s : Shared G) → others.arrival i s ≡ (s, true)) where
  -- `publish` that finds no room, the block being too short and the segment failing to construct one
  -- of the announced length: it returns, the publisher has no handle, the entry is free.
  abbrev pub Refused : RawMessage → Link G → Type 0
  Refused m l =
      (p : SharedmemPublisher) × (s : Shared G) × (publish G others env (message alloc) m
          (l.publisher, l.shared)
        ≡ ok tt (p, s))
      × (p.impl.shm_handle_ ≡ no_handle)
      × ((s.descriptors l.publisher.impl.shm_handle_.handle).active_ ≡ false)
      × NoRoom G l.publisher.impl.shm_handle_.handle (announced alloc m) l.shared

  module _ (m : RawMessage) (l : Link G) (sendable : IsSendable alloc m) (link : IsLinked G l) where
    abbrev sender : Client G
    sender = record { shm = l.publisher.impl.shm_handle_; shared = l.shared }

    -- What a publish leaves for a reader with a current handle of the block.
    abbrev pub published_for :
        (sub : ShmHandle)
        → sub.handle ≡ sender.shm.handle
        → IsCurrent G sub l.shared
        → (c : Client G) × (publish_msg G others (message alloc) m sender ≡ ok tt c)
          × Published G laws others alloc m old sendable.good target sendable.stamp sendable.small
              sendable.space sender sub c
    published_for sub same cur =
        publish_msg-Published G laws others alloc m old sendable.good target sendable.stamp
          sendable.small sendable.space sender sub same link.quiet cur arrives link.valid
          (current-Coherent G sender.shm l.shared link.writer)

    all-Reads :
        (c : Client G) (qs : List SharedmemSubscriber)
        → publish_msg G others (message alloc) m sender ≡ ok tt c
        → c.shm ≢ no_handle
        → All (IsReady G sender.shm.handle l.shared) qs
        → All (Reads G others env (message alloc) old m c) qs
    all-Reads c [] sent real ready = tt
    all-Reads c (q ∷ qs) sent real (one, more) =
        let (c', sent', (_, ends)) = published_for q.shm_handle_ one.same_block one.reader in
        let same = ok-inj (sym sent' ∙ sent) in
        (
          elim ends [
            | inl (none_left, _, _) ↦
                absurd (real (ap (λ (x : Client G). x.shm) (sym same) ∙ none_left))
            | inr (_, _, _, _, _, read) ↦ (
              one.running,
              one.callback,
              subst
                  (λ (x : Client G).
                    wait_data G others (message alloc) old
                      (record { shm = q.shm_handle_; shared = x.shared })
                    ≡ ok (true, m) x)
                  same read,
            )
          ],
          all-Reads c qs sent real more,
        )

    -- One message to linked subscribers is received by each, and all are linked again; or there is no
    -- room.
    pub pass-IsLinked :
        ((l' : Link G) × (pass G others env (message alloc) old m l
            ≡ ok (map (λ (q : SharedmemSubscriber). some m) l.subscribers) l')
          × IsLinked G l'
          × (length l'.subscribers ≡ length l.subscribers))
        ⊎ Refused m l
    unfolding pass receive_after lift
    pass-IsLinked =
        let p = l.publisher in
        let (c, sent, (valid, ends)) = published_for sender.shm refl link.writer in
        let done =
          publish-registered G others env (message alloc) m p l.shared link.registered
          ∙ ap (lift (published G p)) sent in
        elim ends [
          | inl (none_left, free, short) ↦
              inr ((published G p c).0, c.shared, done, none_left, free, short)
          | inr (current, same, _, quiet, _, _) ↦
              let real : c.shm ≢ no_handle = λ e. current.there (ap (λ (h : ShmHandle). h.ptr) e) in
              inl (
                record {
                  publisher = (published G p c).0;
                  subscribers = informed G c l.subscribers;
                  shared = c.shared;
                },
                ap (receive_after G others env (message alloc) old l.subscribers) done
                    ∙ ap
                        (lift (λ (x : List SharedmemSubscriber × Shared G). record {
                          publisher = (published G p c).0;
                          subscribers = x.0;
                          shared = x.1;
                        }))
                        (receive_each-Reads G others env (message alloc) old m c l.subscribers
                          (all-Reads c l.subscribers sent real link.ready)),
                record {
                  valid = valid;
                  registered = link.registered;
                  writer = current;
                  ready =
                      informed-IsReady G c l.shared sender.shm.handle l.subscribers current
                        link.ready;
                  quiet = subst (λ (h : ℕ). Quiet G h c.shared) (sym same) quiet;
                },
                length-informed G c l.subscribers,
              )
        ]
