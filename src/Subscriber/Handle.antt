-- ===== src/Subscriber/Handle.antt =====
-- `SubscriberImpl`, and `Subscriber`, a handle of it.
use message_transport.Common.{
  ℕ, Bool, true, false, not, Option, none, some, List, [], ◌∷◌, ◌++◌, if◌then◌else◌,
}
use message_transport.Sharedmem.Segment.{Segment}
use message_transport.Sharedmem.Block.State.{
  Outcome, ok, bad_alloc, overrun, aborted, out_of_bounds, thrown, Shared, Others,
}
use message_transport.Publisher.Sender.{Environment, lift}
use message_transport.Publisher.Plugins.{same_string}
use message_transport.Subscriber.Receiver.{
  SharedmemSubscriber, new_sharedmem_subscriber, plugin_num_publishers, plugin_shutdown,
  subscribe_impl,
}

-- "sharedmem_sub"
abbrev pub sharedmem_sub : List ℕ
sharedmem_sub = 115 ∷ 104 ∷ 97 ∷ 114 ∷ 101 ∷ 100 ∷ 109 ∷ 101 ∷ 109 ∷ 95 ∷ 115 ∷ 117 ∷ 98 ∷ []

-- `SubscriberPluginGen::getLookupName`, which appends "_sub".
unfoldable pub get_lookup_name : List ℕ → List ℕ
get_lookup_name transport_type = transport_type ++ (95 ∷ 115 ∷ 117 ∷ 98 ∷ [])

pub record SubscriberImpl : Type 0 where
  pub unsubscribed_ : Bool
  pub subscriber_ : Option SharedmemSubscriber

unfoldable pub new_subscriber_impl : SubscriberImpl
new_subscriber_impl = record { unsubscribed_ = false; subscriber_ = none }

unfoldable pub impl_is_valid : SubscriberImpl → Bool
impl_is_valid i = not i.unsubscribed_

-- `none` is a null pointer that is dereferenced.
unfoldable pub shutdown_impl : SubscriberImpl → Option SubscriberImpl
shutdown_impl i =
    if not i.unsubscribed_
    then elim (i.subscriber_) [
      | none ↦ none
      | some p ↦ some (record { unsubscribed_ = true; subscriber_ = some (plugin_shutdown p) })
    ]
    else some i

unfoldable pub get_declared_classes : SubscriberImpl → List (List ℕ)
get_declared_classes i = sharedmem_sub ∷ []

-- `none` is the thrown "Invalid transport".
unfoldable pub reset : List ℕ → SubscriberImpl → Option SubscriberImpl
reset transport_name i =
    if same_string (get_lookup_name transport_name) sharedmem_sub
    then some (record i { subscriber_ = some new_sharedmem_subscriber })
    else none

-- `Subscriber`; the empty pointer is `none`.
pub record Subscriber : Type 0 where
  pub impl_ : Option SubscriberImpl

-- In the next three an answer of `none` is a null pointer that is dereferenced.
unfoldable pub get_topic : Subscriber → Option (List ℕ)
get_topic s = elim (s.impl_) [
  | none ↦ some []
  | some i ↦ elim (i.subscriber_) [ none ↦ none | some p ↦ some p.base_topic_ ]
]

unfoldable pub get_num_publishers : Subscriber → Option ℕ
get_num_publishers s = elim (s.impl_) [
  | none ↦ some 0
  | some i ↦ elim (i.subscriber_) [ none ↦ none | some p ↦ some (plugin_num_publishers p) ]
]

unfoldable pub shutdown : Subscriber → Option Subscriber
shutdown s = elim (s.impl_) [
  | none ↦ some s
  | some i ↦ elim (shutdown_impl i) [ none ↦ none | some i' ↦ some (record { impl_ = some i' }) ]
]

-- `operator void*`
unfoldable pub to_pointer : Subscriber → Bool
to_pointer s = elim (s.impl_) [ none ↦ false | some i ↦ impl_is_valid i ]

-- `do_subscribe` with the new implementation in place, after the old one was destroyed.
unfoldable pub subscribe_new :
    (G : Segment)
    → Others G
    → Environment
    → List ℕ
    → List ℕ
    → Shared G
    → Outcome (Subscriber × Shared G) ℕ
subscribe_new G others env topic transport_name s =
    elim (reset transport_name new_subscriber_impl) [
      | none ↦ thrown (record { impl_ = some new_subscriber_impl }, s)
      | some i ↦
          elim (lift
            (λ (x : SharedmemSubscriber × Shared G).
              (record { impl_ = some (record i { subscriber_ = some x.0 }) }, x.1))
            (subscribe_impl G others env topic (new_sharedmem_subscriber, s))) [
              | ok _ x ↦ ok 0 x
              | bad_alloc x ↦ bad_alloc x
              | overrun x ↦ overrun x
              | aborted ↦ aborted
              | out_of_bounds ↦ out_of_bounds
              | thrown x ↦ thrown x
            ]
    ]

-- The destructor of the old implementation shuts it down; a null pointer in it ends the program.
unfoldable pub do_subscribe :
    (G : Segment)
    → Others G
    → Environment
    → List ℕ
    → List ℕ
    → Subscriber × Shared G
    → Outcome (Subscriber × Shared G) ℕ
do_subscribe G others env topic transport_name (old, s) = elim (shutdown old) [
  | none ↦ aborted
  | some _ ↦ subscribe_new G others env topic transport_name s
]
