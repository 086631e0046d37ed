-- ===== src/Publisher/Advertise.antt =====
-- `publish` and `do_initialise` of `Publisher`, from publisher.inl.
use message_transport.Common.{ℕ, not, none, some, List, [], ◌∷◌, if◌then◌else◌, ◌==◌}
use message_transport.Serialization.Serializer.{Serializer}
use message_transport.Sharedmem.Segment.{Segment}
use message_transport.Sharedmem.Block.State.{Outcome, ok, aborted, thrown, Shared, Others}
use message_transport.Publisher.Sender.{Environment, lift}
use message_transport.Publisher.Plugins.{
  PublisherImpl, new_publisher_impl, impl_is_valid, get_num_publishers, get_declared_classes,
  add_instance, impl_publish, Publisher,
}

-- The loop over the declared classes; a class that cannot be loaded is passed over.
unfoldable pub add_instances : List (List ℕ) → PublisherImpl → PublisherImpl
add_instances [] i = i
add_instances (name ∷ names) i = elim (add_instance name i) [
  | none ↦ add_instances names i
  | some i' ↦ add_instances names i'
]

-- The end of `do_initialise`, on the plugins that were loaded.
unfoldable pub check_plugins : PublisherImpl → Outcome Publisher (Unit {0})
check_plugins i =
    if get_num_publishers i == 0
    then thrown (record { impl_ = some i })
    else ok tt (record { impl_ = some i })

-- `aborted` is the failed assertion that nothing was initialised before.
unfoldable pub do_initialise : List ℕ → Publisher → Outcome Publisher (Unit {0})
do_initialise base_topic p = elim (p.impl_) [
  | some _ ↦ aborted
  | none ↦ check_plugins (
      add_instances (get_declared_classes (new_publisher_impl base_topic))
        (new_publisher_impl base_topic))
]

module _ (G : Segment) (others : Others G) (env : Environment) {T : Type 0} (S : Serializer T) where
  unfoldable pub handle_publish :
      T → Publisher × Shared G → Outcome (Publisher × Shared G) (Unit {0})
  handle_publish msg (p, s) = elim (p.impl_) [
    | none ↦ ok tt (p, s)
    | some i ↦
        (if not (impl_is_valid i)
          then ok tt (p, s)
          else lift (λ (x : PublisherImpl × Shared G). (record { impl_ = some (x.0) }, x.1))
              (impl_publish G others env S msg (i, s)))
  ]
