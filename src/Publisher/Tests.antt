-- ===== src/Publisher/Tests.antt =====
-- The theorems on publishers at concrete inputs.
use message_transport.Common.{
  ℕ, ◌≡◌, refl, true, false, Option, none, some, List, [], ◌∷◌, replicate, arith,
}
use message_transport.Serialization.Message.{RawMessage, message, message_length, get_data_length}
use message_transport.Serialization.Interface.{serialization_length}
use message_transport.Sharedmem.Descriptor.{new_descriptor, record_size, allocate}
use message_transport.Sharedmem.Names.{c_string, strncmp_eq, copy_chars}
use message_transport.Sharedmem.Descriptor.{match_name}
use message_transport.Sharedmem.Block.State.{
  no_handle, ok, Shared, Client, first_index, set_descriptor, check_global_clients,
}
use message_transport.Sharedmem.Block.Operations.{allocate_block, place_block, new_block}
use message_transport.Sharedmem.Block.Exchange.{Delivered}
use message_transport.Sharedmem.Tests.Slots.{slots, slots-IsSegment, construct_slot, add_slot}
use message_transport.Sharedmem.Tests.States.{
  alone, blank, blank-IsValid, seven_slots, seven_handle, publisher, one_block-IsValid,
  publisher-Quiet, publisher-IsCurrent, publisher-Coherent,
}
use message_transport.Publisher.Sender.{
  c_str, opened, Environment, SharedmemPublisherImpl, SharedmemPublisher, new_sharedmem_publisher,
  connect, open_segment, initialise, publish_msg, publish,
}
use message_transport.Publisher.Plugins.{
  PublisherImpl, impl_is_valid, impl_num_subscribers, shutdown_impl, impl_publish,
  get_num_subscribers, get_topic, shutdown, to_pointer,
}
use message_transport.Publisher.Delivery.{
  message_goes_through, raw_message-Delivered, Published, publish_msg-Published,
}
use message_transport.Publisher.Initialise.{
  Connected, initialise-Connected, publish_without_manager,
}
use message_transport.Publisher.Counting.{shutdown_lem}
use message_transport.Publisher.Plugins.{Publisher}
use message_transport.Publisher.Sender.{lift}
use message_transport.Sharedmem.Block.State.{aborted}
use message_transport.Publisher.Advertise.{do_initialise, handle_publish}
use message_transport.Publisher.Advertised.{with_plugin, do_initialise_lem}
use message_transport.Sharedmem.Block.Transfer.{serialize_message, wait_data}
use message_transport.Publisher.Overwritten.{serialize_message-overwrites}

abbrev pub plenty : ℕ → Option (List ℕ)
plenty size = some (replicate size 0)

abbrev pub eight_bytes : RawMessage
eight_bytes = record {
  timestamp = 9;
  m_value = 1 ∷ 2 ∷ 3 ∷ 4 ∷ 5 ∷ 6 ∷ 7 ∷ 8 ∷ [];
  m_allocated_bytes = 8;
}

abbrev pub nothing : RawMessage
nothing = record { timestamp = 0; m_value = []; m_allocated_bytes = 0 }

raw_message-Delivered_example :
    Delivered slots slots-IsSegment alone
      (message plenty)
      eight_bytes
      nothing
      (message_goes_through slots slots-IsSegment alone plenty eight_bytes nothing refl refl
        (omega arith)
        (omega arith)
        (replicate 8 0, refl, refl))
      publisher
      seven_handle
unfolding serialization_length message_length get_data_length
raw_message-Delivered_example =
    raw_message-Delivered slots slots-IsSegment alone plenty eight_bytes nothing refl refl
      (omega arith) (omega arith) (replicate 8 0, refl, refl) publisher 1 1 one_block-IsValid
      publisher-Quiet publisher-IsCurrent refl publisher-Coherent (λ s. refl)

publish_msg-Published_example :
    (c : Client slots) × (publish_msg slots alone (message plenty) eight_bytes publisher ≡ ok tt c)
    × Published slots slots-IsSegment alone plenty eight_bytes nothing refl refl
        (omega arith)
        (omega arith)
        (replicate 8 0, refl, refl)
        publisher
        seven_handle
        c
publish_msg-Published_example =
    publish_msg-Published slots slots-IsSegment alone plenty eight_bytes nothing refl refl
      (omega arith) (omega arith) (replicate 8 0, refl, refl) publisher seven_handle refl
      publisher-Quiet publisher-IsCurrent (λ i s. refl) one_block-IsValid publisher-Coherent

abbrev pub ready : Environment
ready = record { opening = opened; manager = true; beyond = λ i. 0 }

abbrev unmanaged : Environment
unmanaged = record { opening = opened; manager = false; beyond = λ i. 0 }

abbrev pub unconnected : SharedmemPublisherImpl
unconnected = record { connected = false; client_registered = false; shm_handle_ = no_handle }

abbrev pub connected_impl : SharedmemPublisherImpl
connected_impl = record { connected = true; client_registered = true; shm_handle_ = seven_handle }

abbrev pub connected_state : Shared slots
connected_state =
    set_descriptor slots 0
      (record_size 16 16 (allocate (c_str ready.beyond (55 ∷ [])) (blank.descriptors 0)))
      (record blank { segment = seven_slots })

pub initialise_run :
    initialise slots alone ready (55 ∷ []) (unconnected, blank)
    ≡ ok 0 (connected_impl, connected_state)
unfolding initialise open_segment connect c_str allocate_block check_global_clients place_block
    first_index new_block new_descriptor record_size allocate c_string copy_chars construct_slot
    add_slot match_name strncmp_eq
initialise_run = refl

initialise-Connected_example :
    Connected slots alone ready
      (55 ∷ [])
      unconnected
      blank
      (initialise slots alone ready (55 ∷ []) (unconnected, blank))
initialise-Connected_example =
    initialise-Connected slots alone ready slots-IsSegment (55 ∷ []) unconnected blank blank-IsValid
      refl refl

publish_without_manager_example :
    (p : SharedmemPublisher) × (publish slots alone unmanaged
        (message plenty)
        eight_bytes
        (new_sharedmem_publisher (55 ∷ []), blank)
      ≡ ok tt (p, blank))
    × ((later : Environment) (msg' : RawMessage) (t : Shared slots)
        → publish slots alone later (message plenty) msg' (p, t) ≡ ok tt (p, t))
publish_without_manager_example =
    publish_without_manager slots alone unmanaged (message plenty) (55 ∷ []) eight_bytes blank refl
      refl

abbrev two_plugins : PublisherImpl
two_plugins = record {
  unsubscribed_ = false;
  base_topic_ = 55 ∷ [];
  publishers_ = new_sharedmem_publisher (55 ∷ []) ∷ new_sharedmem_publisher (55 ∷ []) ∷ [];
}

shutdown_lem_example :
    (shutdown (record { impl_ = some two_plugins })
      ≡ (some (shutdown_impl two_plugins), record { impl_ = none }))
    × (get_num_subscribers (record { impl_ = none }) ≡ 0)
    × (get_topic (record { impl_ = none }) ≡ [])
    × (to_pointer (record { impl_ = none }) ≡ false)
    × (impl_is_valid (shutdown_impl two_plugins) ≡ true)
    × (impl_num_subscribers (shutdown_impl two_plugins) ≡ 0)
    × (impl_publish slots alone ready
          (message plenty)
          eight_bytes
          (shutdown_impl two_plugins, blank)
        ≡ ok tt (shutdown_impl two_plugins, blank))
shutdown_lem_example =
    shutdown_lem slots alone ready (message plenty) two_plugins eight_bytes blank refl

do_initialise_lem_example :
    (p : Publisher) × (do_initialise (55 ∷ []) (record { impl_ = none }) ≡ ok tt p)
    × (p ≡ with_plugin (new_sharedmem_publisher (55 ∷ [])) (55 ∷ []))
    × (to_pointer p ≡ true)
    × (get_topic p ≡ 55 ∷ [])
    × (get_num_subscribers p ≡ 1)
    × ((topic : List ℕ) → do_initialise topic p ≡ aborted)
    × (handle_publish slots alone ready (message plenty) eight_bytes (p, blank)
        ≡ lift
            (λ (x : SharedmemPublisher × Shared slots). (with_plugin x.0 (55 ∷ []), x.1))
            (publish slots alone ready
              (message plenty)
              eight_bytes
              (new_sharedmem_publisher (55 ∷ []), blank)))
do_initialise_lem_example =
    do_initialise_lem slots alone ready (message plenty) (55 ∷ []) eight_bytes blank

abbrev other_bytes : RawMessage
other_bytes = record {
  timestamp = 10;
  m_value = 8 ∷ 7 ∷ 6 ∷ 5 ∷ 4 ∷ 3 ∷ 2 ∷ 1 ∷ [];
  m_allocated_bytes = 8;
}

serialize_message-overwrites_example :
    (c1 c2 : Client slots) × (serialize_message slots alone (message plenty) eight_bytes publisher
      ≡ ok tt c1)
    × (serialize_message slots alone (message plenty) other_bytes c1 ≡ ok tt c2)
    × (wait_data slots alone
          (message plenty)
          nothing
          (record { shm = seven_handle; shared = c2.shared })
        ≡ ok (true, other_bytes) c2)
    × (wait_data slots alone (message plenty) nothing c2 ≡ ok (true, other_bytes) c2)
unfolding serialization_length message_length get_data_length
serialize_message-overwrites_example =
    serialize_message-overwrites slots slots-IsSegment alone plenty eight_bytes other_bytes nothing
      refl refl refl (omega arith) (omega arith) (omega arith) (omega arith)
      (replicate 8 0, refl, refl) (replicate 8 0, refl, refl) publisher 1 1 refl one_block-IsValid
      publisher-Quiet publisher-IsCurrent refl publisher-Coherent (λ s. refl)
