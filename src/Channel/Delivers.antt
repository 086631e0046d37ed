-- ===== src/Channel/Delivers.antt =====
-- A list of messages from a new publisher to new subscribers.
use message_transport.Common.{
  ℕ, ◌≡◌, ◌⊎◌, inl, inr, refl, ap, ◌∙◌, true, Option, some, List, [], ◌∷◌, ◌++◌, map, replicate,
  length, length-replicate,
}
use message_transport.Serialization.Message.{RawMessage, message}
use message_transport.Serialization.Buffers.{IsMessage}
use message_transport.Sharedmem.Segment.{Segment, IsSegment}
use message_transport.Sharedmem.Block.State.{no_handle, ok, Shared, Others}
use message_transport.Sharedmem.Session.Steps.{IsSettled}
use message_transport.Publisher.Sender.{
  Environment, opened, SharedmemPublisher, new_sharedmem_publisher, publish,
}
use message_transport.Subscriber.Receiver.{
  SharedmemSubscriber, new_sharedmem_subscriber, subscribe_impl,
}
use message_transport.Channel.Pass.{Link, collect, then_pass, pass_all}
use message_transport.Channel.First.{Unserved, publish-FirstPublish, subscribe_impl-IsLinked}
use message_transport.Channel.Linked.{IsLinked, IsSendable, Refused, pass-IsLinked}

abbrev pub AllSendable : (ℕ → Option (List ℕ)) → List RawMessage → Type 0
AllSendable alloc [] = Unit
AllSendable alloc (m ∷ ms) = IsSendable alloc m × AllSendable alloc ms

map-constant :
    {A B : Type 0} (b : B) (xs : List A) → map (λ (x : A). b) xs ≡ replicate (length xs) b
map-constant b [] = refl
map-constant b (x ∷ xs) = ap (λ (ys : List _). b ∷ ys) (map-constant b xs)

module _ (G : Segment) (laws : IsSegment G) (others : Others G) (env : Environment)
    (alloc : ℕ → Option (List ℕ)) (old : RawMessage) (target : IsMessage old)
    (arrives : (i : ℕ) (s : Shared G) → others.arrival i s ≡ (s, true)) where
  -- Each of `k` callbacks gets a first part of the list, in its order, and the sides are still
  -- linked; what is left is nothing, or begins with a message that the segment has no room for.
  abbrev pub Delivers : ℕ → List RawMessage → Link G → Type 0
  Delivers k ms l =
      (received rest : List RawMessage) × (l' : Link G) × (ms ≡ received ++ rest)
      × (pass_all G others env (message alloc) old received l
          ≡ ok (map (λ (m : RawMessage). replicate k (some m)) received) l')
      × IsLinked G l'
      × ((rest ≡ [])
          ⊎ ((m : RawMessage) × (later : List RawMessage) × (rest ≡ m ∷ later)
              × Refused G laws others env alloc old target arrives m l'))

  pub pass_all-Delivers :
      (k : ℕ) (ms : List RawMessage) (l : Link G)
      → AllSendable alloc ms
      → IsLinked G l
      → length l.subscribers ≡ k
      → Delivers k ms l
  unfolding pass_all collect then_pass
  pass_all-Delivers k [] l sendable good many = ([], [], l, refl, refl, good, inl refl)
  pass_all-Delivers k (m ∷ ms) l (first, others_too) good many =
      elim (pass-IsLinked G laws others env alloc old target arrives m l first good) [
        | inr refused ↦ ([], m ∷ ms, l, refl, refl, good, inr (m, ms, refl, refused))
        | inl (l', got, good', same) ↦
            let (received, rest, l'', split, run, good'', end) =
              pass_all-Delivers k ms l' others_too good' (same ∙ many) in
            let each : map (λ (q : SharedmemSubscriber). some m) l.subscribers
                ≡ replicate k (some m) =
              map-constant (some m) l.subscribers ∙ ap (λ (n : ℕ). replicate n (some m)) many in
            (
              m ∷ received,
              rest,
              l'',
              ap (λ (xs : List RawMessage). m ∷ xs) split,
              rw (got, then_pass, run)
                  (ap
                    (λ (g : List (Option RawMessage)).
                      ok (g ∷ map (λ (x : RawMessage). replicate k (some x)) received) l'')
                    each),
              good'',
              end,
            )
      ]

  -- From end to end, in processes with the segment and its manager, on a settled table: a new publisher
  -- publishes a message, which connects it, and the call returns. Either the publisher has no block
  -- then, because all entries are active under other names, or the segment failed to construct
  -- an object of 16 bytes for the topic, or
  -- the block was too small for the message and the segment failed to construct one of its length. Or
  -- a new subscriber that now subscribes to the topic runs its thread and changes nothing in the
  -- segment; and with any number of such subscribers, when more messages are then published one by one
  -- and every receive loop makes a pass after each, every call returns and every callback gets these
  -- messages in their order, none twice and none left out, up to the first for which the block is too
  -- small and the segment fails to construct one of its length, if there is one. Every buffer has its
  -- recorded size, lengths and times fit their fields, the subscribers can allocate, and each wait ends
  -- with the notification.
  pub publish-Delivers :
      (topic : List ℕ) (s : Shared G) (m : RawMessage) (k : ℕ) (ms : List RawMessage)
      → IsSettled G s
      → env.opening ≡ opened
      → env.manager ≡ true
      → IsSendable alloc m
      → AllSendable alloc ms
      → (p : SharedmemPublisher) × (t : Shared G) × (publish G others env
            (message alloc)
            m
            (new_sharedmem_publisher topic, s)
          ≡ ok tt (p, t))
        × (((p.impl.shm_handle_ ≡ no_handle) × Unserved G others env alloc topic m s)
            ⊎ ((q : SharedmemSubscriber) × (subscribe_impl G others env topic
                    (new_sharedmem_subscriber, t)
                  ≡ ok tt (q, t))
                × (q.rec_thread_ ≡ true)
                × Delivers k ms
                    (record { publisher = p; subscribers = replicate k q; shared = t })))
  publish-Delivers topic s m k ms settled there manager sendable more =
      let (p, t, e, ends) =
        publish-FirstPublish G laws others env alloc old target arrives topic m s settled there
          manager sendable in
      (
        p,
        t,
        e,
        elim ends [
          | inl unserved ↦ inl unserved
          | inr opens ↦
              let (q, e', thread, good) =
                subscribe_impl-IsLinked G laws others env alloc old target arrives topic t p k opens
                  there manager in
              inr (
                q,
                e',
                thread,
                pass_all-Delivers k ms _ more good (length-replicate {A = SharedmemSubscriber} k q),
              )
        ],
      )
