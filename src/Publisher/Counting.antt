-- ===== src/Publisher/Counting.antt =====
-- The plugins of a publisher: how many there are, which can be added, and what `shutdown` leaves.
use message_transport.Common.{
  ℕ, ◌+◌, ◌%◌, ◌^◌, ◌<◌, ◌≡◌, ◌≢◌, ◌↔◌, ◌⊎◌, inl, inr, refl, ap, ◌∙◌, true, false, none, some, List,
  [], ◌∷◌, ◌++◌, length, ==_iff, Bool-cases, arith,
}
use message_transport.Serialization.Serializer.{Serializer}
use message_transport.Sharedmem.Segment.{Segment}
use message_transport.Sharedmem.Block.State.{ok, Shared, Others}
use message_transport.Publisher.Sender.{
  Environment, SharedmemPublisher, new_sharedmem_publisher, lift,
}
use message_transport.Publisher.Plugins.{
  same_string, sharedmem_pub, get_lookup_name, PublisherImpl, impl_is_valid, plugin_num_subscribers,
  count_subscribers, impl_num_subscribers, get_num_publishers, shutdown_impl, add_instance,
  publish_all, impl_publish, get_num_subscribers, get_topic, shutdown, to_pointer,
}
use mathlib.Core.List.{append_cancel_right}

pub same_string_iff : (xs ys : List ℕ) → (same_string xs ys ≡ true) ↔ (xs ≡ ys)
unfolding same_string
same_string_iff [] [] = ground arith
same_string_iff [] (y ∷ ys) = ground arith
same_string_iff (x ∷ xs) [] = ground arith
same_string_iff (x ∷ xs) (y ∷ ys) = ground (arith, ==_iff x y, same_string_iff xs ys)

count_subscribers_lem :
    (ps : List SharedmemPublisher) (count : ℕ)
    → count < 2 ^ 32
    → count_subscribers ps count ≡ (count + length ps) % 2 ^ 32
unfolding count_subscribers plugin_num_subscribers
count_subscribers_lem [] count h = omega arith
count_subscribers_lem (p ∷ ps) count h =
    count_subscribers_lem ps ((count + 1) % 2 ^ 32) (omega arith) ∙ omega arith

-- A publisher reports as many subscribers as it has plugins, modulo 2^32, whether anyone listens or not.
pub impl_num_subscribers-get_num_publishers :
    (p : PublisherImpl) → impl_num_subscribers p ≡ get_num_publishers p
unfolding impl_num_subscribers get_num_publishers
impl_num_subscribers-get_num_publishers p =
    count_subscribers_lem p.publishers_ 0 (omega arith) ∙ ap (λ n. n % 2 ^ 32) (omega arith)

-- "sharedmem"
abbrev pub sharedmem : List ℕ
sharedmem = 115 ∷ 104 ∷ 97 ∷ 114 ∷ 101 ∷ 100 ∷ 109 ∷ 101 ∷ 109 ∷ []

-- The lookup name of a transport names a plugin exactly for the transport "sharedmem". For it
-- `addInstance` adds one plugin on the publisher's topic, behind the others; for any other transport it
-- throws.
pub add_instance-get_lookup_name :
    (transport : List ℕ) (p : PublisherImpl)
    → ((transport ≡ sharedmem)
        × (add_instance (get_lookup_name transport) p
            ≡ some (record p {
              publishers_ = p.publishers_ ++ (new_sharedmem_publisher p.base_topic_ ∷ []);
            })))
      ⊎ ((transport ≢ sharedmem) × (add_instance (get_lookup_name transport) p ≡ none))
unfolding add_instance get_lookup_name
add_instance-get_lookup_name transport p =
    elim (Bool-cases (same_string (get_lookup_name transport) sharedmem_pub)) [
      | inl e ↦ inl (
        append_cancel_right transport sharedmem (95 ∷ 112 ∷ 117 ∷ 98 ∷ [])
            ((same_string_iff (get_lookup_name transport) sharedmem_pub).0 e),
        rw e refl,
      )
      | inr e ↦ inr (
        λ t. cc (
          e,
          (same_string_iff (get_lookup_name transport) sharedmem_pub).1 (ap get_lookup_name t),
        ),
        rw e refl,
      )
    ]

module _ (G : Segment) (others : Others G) (env : Environment) {T : Type 0} (S : Serializer T) where
  -- After `shutdown` the handle is empty: no topic, no subscribers, a null pointer. Another owner of a
  -- publisher that was not unsubscribed still finds it valid, with no plugin, and a publish through it
  -- returns and changes nothing.
  pub shutdown_lem :
      (i : PublisherImpl) (msg : T) (s : Shared G)
      → i.unsubscribed_ ≡ false
      → (shutdown (record { impl_ = some i }) ≡ (some (shutdown_impl i), record { impl_ = none }))
        × (get_num_subscribers (record { impl_ = none }) ≡ 0)
        × (get_topic (record { impl_ = none }) ≡ [])
        × (to_pointer (record { impl_ = none }) ≡ false)
        × (impl_is_valid (shutdown_impl i) ≡ true)
        × (impl_num_subscribers (shutdown_impl i) ≡ 0)
        × (impl_publish G others env S msg (shutdown_impl i, s) ≡ ok tt (shutdown_impl i, s))
  unfolding shutdown get_num_subscribers get_topic to_pointer impl_is_valid shutdown_impl
      impl_num_subscribers count_subscribers impl_publish publish_all lift
  shutdown_lem i msg s live = (refl, refl, refl, refl, rw live refl, rw live refl, rw live refl)
