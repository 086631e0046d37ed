-- ===== src/Publisher/Advertised.antt =====
-- A publisher from `do_initialise` to its first message.
use message_transport.Common.{ℕ, ◌≡◌, refl, ap, ◌∙◌, true, false, none, some, List, [], ◌∷◌}
use message_transport.Serialization.Serializer.{Serializer}
use message_transport.Sharedmem.Segment.{Segment}
use message_transport.Sharedmem.Block.State.{
  Outcome, ok, bad_alloc, overrun, aborted, out_of_bounds, thrown, Shared, Others,
}
use message_transport.Publisher.Sender.{
  Environment, SharedmemPublisher, new_sharedmem_publisher, lift, publish,
}
use message_transport.Publisher.Plugins.{
  PublisherImpl, new_publisher_impl, impl_is_valid, get_num_publishers, get_declared_classes,
  same_string, add_instance, plugin_num_subscribers, count_subscribers, impl_num_subscribers,
  after_plugin, publish_all, impl_publish, Publisher, get_num_subscribers, get_topic, to_pointer,
}
use message_transport.Publisher.Advertise.{
  add_instances, check_plugins, do_initialise, handle_publish,
}

-- A publisher with the one plugin `p`.
abbrev pub with_plugin : SharedmemPublisher → List ℕ → Publisher
with_plugin p topic = record {
  impl_ = some (record { unsubscribed_ = false; base_topic_ = topic; publishers_ = p ∷ [] });
}

lift-lift :
    {S T U A : Type 0} (g : T → U) (f : S → T) (r : Outcome S A)
    → lift g (lift f r) ≡ lift (λ s. g (f s)) r
unfolding lift
lift-lift g f (ok a s) = refl
lift-lift g f (bad_alloc s) = refl
lift-lift g f (overrun s) = refl
lift-lift g f aborted = refl
lift-lift g f out_of_bounds = refl
lift-lift g f (thrown s) = refl

module _ (G : Segment) (others : Others G) (env : Environment) {T : Type 0} (S : Serializer T) where
  one_plugin_ends :
      (msg : T) (r : Outcome (SharedmemPublisher × Shared G) (Unit {0}))
      → after_plugin [] (publish_all G others env S msg []) r
        ≡ lift (λ (x : SharedmemPublisher × Shared G). (x.0 ∷ [], x.1)) r
  unfolding publish_all lift after_plugin
  one_plugin_ends msg (ok u x) = refl
  one_plugin_ends msg (bad_alloc x) = refl
  one_plugin_ends msg (overrun x) = refl
  one_plugin_ends msg aborted = refl
  one_plugin_ends msg out_of_bounds = refl
  one_plugin_ends msg (thrown x) = refl

  one_plugin :
      (p : SharedmemPublisher) (msg : T) (s : Shared G)
      → publish_all G others env S msg (p ∷ []) s
        ≡ lift
            (λ (x : SharedmemPublisher × Shared G). (x.0 ∷ [], x.1))
            (publish G others env S msg (p, s))
  unfolding publish_all plugin_num_subscribers
  one_plugin p msg s = one_plugin_ends msg (publish G others env S msg (p, s))

  -- A publish through a publisher with one plugin is a publish of the plugin.
  pub handle_publish-with_plugin :
      (p : SharedmemPublisher) (topic : List ℕ) (msg : T) (s : Shared G)
      → handle_publish G others env S msg (with_plugin p topic, s)
        ≡ lift
            (λ (x : SharedmemPublisher × Shared G). (with_plugin x.0 topic, x.1))
            (publish G others env S msg (p, s))
  unfolding handle_publish impl_publish impl_is_valid
  handle_publish-with_plugin p topic msg s =
      ap
        (λ (r : Outcome (List SharedmemPublisher × Shared G) (Unit {0})). lift outer (lift inner r))
        (one_plugin p msg s)
      ∙ ap (λ (r : Outcome (PublisherImpl × Shared G) (Unit {0})). lift outer r)
          (lift-lift inner list (publish G others env S msg (p, s)))
      ∙ lift-lift outer (λ x. inner (list x)) (publish G others env S msg (p, s))
    where
      list : SharedmemPublisher × Shared G → List SharedmemPublisher × Shared G
      list x = (x.0 ∷ [], x.1)

      inner : List SharedmemPublisher × Shared G → PublisherImpl × Shared G
      inner x = (record { unsubscribed_ = false; base_topic_ = topic; publishers_ = x.0 }, x.1)

      outer : PublisherImpl × Shared G → Publisher × Shared G
      outer x = (record { impl_ = some x.0 }, x.1)

  -- `do_initialise` on an empty publisher returns, with a valid publisher on the topic that has one
  -- plugin and reports one subscriber, though none is connected; a second one fails its assertion. A publish through it is a
  -- publish of its only plugin, whoever is connected, with the same result and the same changes of the
  -- shared state.
  pub do_initialise_lem :
      (topic : List ℕ) (msg : T) (s : Shared G)
      → (p : Publisher) × (do_initialise topic (record { impl_ = none }) ≡ ok tt p)
        × (p ≡ with_plugin (new_sharedmem_publisher topic) topic)
        × (to_pointer p ≡ true)
        × (get_topic p ≡ topic)
        × (get_num_subscribers p ≡ 1)
        × ((topic' : List ℕ) → do_initialise topic' p ≡ aborted)
        × (handle_publish G others env S msg (p, s)
            ≡ lift
                (λ (x : SharedmemPublisher × Shared G). (with_plugin x.0 topic, x.1))
                (publish G others env S msg (new_sharedmem_publisher topic, s)))
  unfolding do_initialise check_plugins add_instances add_instance same_string get_declared_classes
      new_publisher_impl get_num_publishers to_pointer impl_is_valid get_topic get_num_subscribers
      impl_num_subscribers count_subscribers plugin_num_subscribers
  do_initialise_lem topic msg s = (
    with_plugin (new_sharedmem_publisher topic) topic,
    refl,
    refl,
    refl,
    refl,
    refl,
    (λ topic'. refl),
    handle_publish-with_plugin (new_sharedmem_publisher topic) topic msg s,
  )
