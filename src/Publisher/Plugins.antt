-- ===== src/Publisher/Plugins.antt =====
-- `PublisherImpl`, which owns the plugins of a topic, and `Publisher`, a handle of it.
use message_transport.Common.{
  ℕ, ◌+◌, ◌%◌, ◌^◌, Bool, true, false, not, Option, none, some, List, [], ◌∷◌, ◌++◌, length, ltb,
  if◌then◌else◌, ◌==◌,
}
use message_transport.Serialization.Serializer.{Serializer}
use message_transport.Sharedmem.Segment.{Segment}
use message_transport.Sharedmem.Block.State.{
  Outcome, ok, bad_alloc, overrun, aborted, out_of_bounds, thrown, Shared, Others,
}
use message_transport.Publisher.Sender.{
  Environment, SharedmemPublisher, new_sharedmem_publisher, lift, publish,
}

-- `std::string::compare` against a literal.
unfoldable pub same_string : List ℕ → List ℕ → Bool
same_string [] [] = true
same_string [] (y ∷ ys) = false
same_string (x ∷ xs) [] = false
same_string (x ∷ xs) (y ∷ ys) = let rest = same_string xs ys in if x == y then rest else false

-- "sharedmem_pub"
abbrev pub sharedmem_pub : List ℕ
sharedmem_pub = 115 ∷ 104 ∷ 97 ∷ 114 ∷ 101 ∷ 100 ∷ 109 ∷ 101 ∷ 109 ∷ 95 ∷ 112 ∷ 117 ∷ 98 ∷ []

-- `PublisherPluginGen::getLookupName`, which appends "_pub".
unfoldable pub get_lookup_name : List ℕ → List ℕ
get_lookup_name transport_name = transport_name ++ (95 ∷ 112 ∷ 117 ∷ 98 ∷ [])

pub record PublisherImpl : Type 0 where
  pub unsubscribed_ : Bool
  pub base_topic_ : List ℕ
  pub publishers_ : List SharedmemPublisher

unfoldable pub new_publisher_impl : List ℕ → PublisherImpl
new_publisher_impl topic = record { unsubscribed_ = false; base_topic_ = topic; publishers_ = [] }

unfoldable pub impl_is_valid : PublisherImpl → Bool
impl_is_valid p = not p.unsubscribed_

-- `SharedmemPublisher::getNumSubscribers`
unfoldable pub plugin_num_subscribers : SharedmemPublisher → ℕ
plugin_num_subscribers p = 1

-- The loop of `getNumSubscribers`, with the count so far.
unfoldable pub count_subscribers : List SharedmemPublisher → ℕ → ℕ
count_subscribers [] count = count
count_subscribers (p ∷ ps) count =
    count_subscribers ps ((count + plugin_num_subscribers p) % 2 ^ 32)

unfoldable pub impl_num_subscribers : PublisherImpl → ℕ
impl_num_subscribers p = count_subscribers p.publishers_ 0

unfoldable pub get_num_publishers : PublisherImpl → ℕ
get_num_publishers p = length p.publishers_ % 2 ^ 32

-- The plugins' `shutdown` does nothing.
unfoldable pub shutdown_impl : PublisherImpl → PublisherImpl
shutdown_impl p = if not p.unsubscribed_ then record p { publishers_ = [] } else p

unfoldable pub get_declared_classes : PublisherImpl → List (List ℕ)
get_declared_classes p = sharedmem_pub ∷ []

-- `none` is the thrown "Invalid transport".
unfoldable pub add_instance : List ℕ → PublisherImpl → Option PublisherImpl
add_instance name p =
    if same_string name sharedmem_pub
    then some
        (record p { publishers_ = p.publishers_ ++ (new_sharedmem_publisher p.base_topic_ ∷ []) })
    else none

-- The loop of `publish` after one plugin: an exception ends it.
unfoldable pub after_plugin :
    {S : Type 0}
    → List SharedmemPublisher
    → (S → Outcome (List SharedmemPublisher × S) (Unit {0}))
    → Outcome (SharedmemPublisher × S) (Unit {0})
    → Outcome (List SharedmemPublisher × S) (Unit {0})
after_plugin ps rest (ok _ (p, s)) = lift (λ x. (p ∷ x.0, x.1)) (rest s)
after_plugin ps rest (bad_alloc (p, s)) = bad_alloc (p ∷ ps, s)
after_plugin ps rest (overrun (p, s)) = overrun (p ∷ ps, s)
after_plugin ps rest aborted = aborted
after_plugin ps rest out_of_bounds = out_of_bounds
after_plugin ps rest (thrown (p, s)) = thrown (p ∷ ps, s)

module _ (G : Segment) (others : Others G) (env : Environment) {T : Type 0} (S : Serializer T) where
  -- `publish` on each plugin that has a subscriber, in order.
  unfoldable pub publish_all :
      T
      → List SharedmemPublisher
      → Shared G
      → Outcome (List SharedmemPublisher × Shared G) (Unit {0})
  publish_all msg [] s = ok tt ([], s)
  publish_all msg (p ∷ ps) s =
      after_plugin ps (publish_all msg ps) (
        if ltb 0 (plugin_num_subscribers p)
        then publish G others env S msg (p, s)
        else ok tt (p, s))

  unfoldable pub impl_publish :
      T → PublisherImpl × Shared G → Outcome (PublisherImpl × Shared G) (Unit {0})
  impl_publish msg (p, s) =
      lift (λ (x : List SharedmemPublisher × Shared G). (record p { publishers_ = x.0 }, x.1))
        (publish_all msg p.publishers_ s)

-- `Publisher`; the empty pointer is `none`.
pub record Publisher : Type 0 where
  pub impl_ : Option PublisherImpl

unfoldable pub get_num_subscribers : Publisher → ℕ
get_num_subscribers p = elim (p.impl_) [
  | none ↦ 0
  | some i ↦ (if impl_is_valid i then impl_num_subscribers i else 0)
]

unfoldable pub get_topic : Publisher → List ℕ
get_topic p = elim (p.impl_) [ none ↦ [] | some i ↦ i.base_topic_ ]

-- The implementation as its other owners see it, and the handle.
unfoldable pub shutdown : Publisher → Option PublisherImpl × Publisher
shutdown p = elim (p.impl_) [
  | none ↦ (none, p)
  | some i ↦ (some (shutdown_impl i), record { impl_ = none })
]

-- `operator void*`
unfoldable pub to_pointer : Publisher → Bool
to_pointer p = elim (p.impl_) [ none ↦ false | some i ↦ impl_is_valid i ]
