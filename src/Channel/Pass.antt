-- ===== src/Channel/Pass.antt =====
-- A publisher and its subscribers over the same segment: `publish`, and then one pass of the loop of
-- `receiveThread` in every subscriber, for each message of a list.
use message_transport.Common.{Option, List, [], ◌∷◌}
use message_transport.Serialization.Serializer.{Serializer}
use message_transport.Sharedmem.Segment.{Segment}
use message_transport.Sharedmem.Block.State.{
  Outcome, ok, bad_alloc, overrun, aborted, out_of_bounds, thrown, Shared, Others,
}
use message_transport.Publisher.Sender.{SharedmemPublisher, Environment, lift, publish}
use message_transport.Subscriber.Receiver.{SharedmemSubscriber, receive}

pub record Link (G : Segment) : Type 0 where
  pub publisher : SharedmemPublisher
  pub subscribers : List SharedmemSubscriber
  pub shared : Shared G

module _ (G : Segment) (others : Others G) (env : Environment) {T : Type 0} (S : Serializer T)
    (fresh : T) where
  abbrev pub Listeners : Type 0
  Listeners = List SharedmemSubscriber × Shared G

  -- What one subscriber's callback got, in front of what the others got.
  unfoldable pub and_others :
      Option T
      → SharedmemSubscriber
      → Outcome Listeners (List (Option T))
      → Outcome Listeners (List (Option T))
  and_others got q (ok gots (qs, s)) = ok (got ∷ gots) (q ∷ qs, s)
  and_others got q (bad_alloc (qs, s)) = bad_alloc (q ∷ qs, s)
  and_others got q (overrun (qs, s)) = overrun (q ∷ qs, s)
  and_others got q aborted = aborted
  and_others got q out_of_bounds = out_of_bounds
  and_others got q (thrown (qs, s)) = thrown (q ∷ qs, s)

  unfoldable pub then_others :
      List SharedmemSubscriber
      → (Shared G → Outcome Listeners (List (Option T)))
      → Outcome (SharedmemSubscriber × Shared G) (Option T)
      → Outcome Listeners (List (Option T))
  then_others qs rest (ok got (q, s)) = and_others got q (rest s)
  then_others qs rest (bad_alloc (q, s)) = bad_alloc (q ∷ qs, s)
  then_others qs rest (overrun (q, s)) = overrun (q ∷ qs, s)
  then_others qs rest aborted = aborted
  then_others qs rest out_of_bounds = out_of_bounds
  then_others qs rest (thrown (q, s)) = thrown (q ∷ qs, s)

  unfoldable pub receive_each :
      List SharedmemSubscriber → Shared G → Outcome Listeners (List (Option T))
  receive_each [] s = ok [] ([], s)
  receive_each (q ∷ qs) s = then_others qs (receive_each qs) (receive G others S fresh (q, s))

  -- The pass of the receive loops after a `publish` that returned.
  unfoldable pub receive_after :
      List SharedmemSubscriber
      → Outcome (SharedmemPublisher × Shared G) (Unit {0})
      → Outcome (Link G) (List (Option T))
  receive_after qs (ok _ (p, s)) =
      lift (λ (x : Listeners). record { publisher = p; subscribers = x.0; shared = x.1 })
        (receive_each qs s)
  receive_after qs (bad_alloc (p, s)) =
      bad_alloc (record { publisher = p; subscribers = qs; shared = s })
  receive_after qs (overrun (p, s)) =
      overrun (record { publisher = p; subscribers = qs; shared = s })
  receive_after qs aborted = aborted
  receive_after qs out_of_bounds = out_of_bounds
  receive_after qs (thrown (p, s)) = thrown (record { publisher = p; subscribers = qs; shared = s })

  unfoldable pub pass : T → Link G → Outcome (Link G) (List (Option T))
  pass msg l = receive_after l.subscribers (publish G others env S msg (l.publisher, l.shared))

  -- What the callbacks got in this pass, in front of what they got in later ones.
  unfoldable pub collect :
      List (Option T)
      → Outcome (Link G) (List (List (Option T)))
      → Outcome (Link G) (List (List (Option T)))
  collect got (ok gots l) = ok (got ∷ gots) l
  collect got (bad_alloc l) = bad_alloc l
  collect got (overrun l) = overrun l
  collect got aborted = aborted
  collect got out_of_bounds = out_of_bounds
  collect got (thrown l) = thrown l

  unfoldable pub then_pass :
      (Link G → Outcome (Link G) (List (List (Option T))))
      → Outcome (Link G) (List (Option T))
      → Outcome (Link G) (List (List (Option T)))
  then_pass rest (ok got l) = collect got (rest l)
  then_pass rest (bad_alloc l) = bad_alloc l
  then_pass rest (overrun l) = overrun l
  then_pass rest aborted = aborted
  then_pass rest out_of_bounds = out_of_bounds
  then_pass rest (thrown l) = thrown l

  unfoldable pub pass_all : List T → Link G → Outcome (Link G) (List (List (Option T)))
  pass_all [] l = ok [] l
  pass_all (msg ∷ msgs) l = then_pass (pass_all msgs) (pass msg l)
