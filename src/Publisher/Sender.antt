-- ===== src/Publisher/Sender.antt =====
-- `SharedmemPublisherImpl` and `SharedmemPublisher`.
use message_transport.Common.{
  ℕ, zero, suc, ◌-◌, ◌^◌, Bool, true, false, List, [], ◌∷◌, if◌then◌else◌,
}
use message_transport.Serialization.Serializer.{Serializer}
use message_transport.Serialization.Interface.{serialization_length}
use message_transport.Sharedmem.Names.{Chars}
use message_transport.Sharedmem.Segment.{Segment}
use message_transport.Sharedmem.Block.State.{
  ShmHandle, no_handle, is_valid, Outcome, ok, bad_alloc, overrun, aborted, out_of_bounds, thrown,
  Shared, Client, Others,
}
use message_transport.Sharedmem.Block.Operations.{allocate_block, reallocate_block}
use message_transport.Sharedmem.Block.Transfer.{serialize_message}

-- `std::string::c_str`: the characters, a terminator, and whatever the memory holds from there on.
unfoldable pub c_str : Chars → List ℕ → Chars
c_str beyond [] zero = 0
c_str beyond [] (suc i) = beyond i
c_str beyond (x ∷ xs) zero = x
c_str beyond (x ∷ xs) (suc i) = c_str beyond xs i

-- How `managed_shared_memory(open_only, name)` ends: with the segment, with bad_alloc, or with the
-- exception for a segment that cannot be opened.
pub data Opening : Type 0 where
  opened : Opening
  no_memory : Opening
  refused : Opening

-- What the process finds when it connects: the segment, and whether "Manager" is in it.
pub record Environment : Type 0 where
  pub opening : Opening
  pub manager : Bool
  pub beyond : Chars

-- -1 in uint32_t
abbrev pub failed : ℕ
failed = 2 ^ 32 - 1

-- `segment_` is NULL where it is not `connected`.
pub record SharedmemPublisherImpl : Type 0 where
  pub connected : Bool
  pub client_registered : Bool
  pub shm_handle_ : ShmHandle

unfoldable pub new_impl : SharedmemPublisherImpl
new_impl = record { connected = false; client_registered = false; shm_handle_ = no_handle }

-- `SharedmemPublisher`, with the topic of its base class.
pub record SharedmemPublisher : Type 0 where
  pub impl : SharedmemPublisherImpl
  pub first_run_ : Bool
  pub base_topic_ : List ℕ

unfoldable pub new_sharedmem_publisher : List ℕ → SharedmemPublisher
unfolding new_impl
new_sharedmem_publisher topic = record { impl = new_impl; first_run_ = true; base_topic_ = topic }

-- A result in a larger state.
unfoldable pub lift : {S T A : Type 0} → (S → T) → Outcome S A → Outcome T A
lift f (ok a s) = ok a (f s)
lift f (bad_alloc s) = bad_alloc (f s)
lift f (overrun s) = overrun (f s)
lift f aborted = aborted
lift f out_of_bounds = out_of_bounds
lift f (thrown s) = thrown (f s)

module _ (G : Segment) (others : Others G) {T : Type 0} (S : Serializer T) where
  -- `publish_msg` after `reallocateBlock`.
  unfoldable pub send_through : T → Outcome (Client G) (Unit {0}) → Outcome (Client G) (Unit {0})
  send_through msg (ok _ c) = if is_valid c.shm then serialize_message G others S msg c else ok tt c
  send_through msg (bad_alloc c) = bad_alloc c
  send_through msg (overrun c) = overrun c
  send_through msg aborted = aborted
  send_through msg out_of_bounds = out_of_bounds
  send_through msg (thrown c) = thrown c

  unfoldable pub publish_msg : T → Client G → Outcome (Client G) (Unit {0})
  publish_msg msg c =
      if is_valid c.shm
      then send_through msg (reallocate_block G others (serialization_length S msg) c)
      else ok tt c

  -- `SharedmemPublisher::publish` after the first run.
  unfoldable pub publish_on :
      T → SharedmemPublisher → Shared G → Outcome (SharedmemPublisher × Shared G) (Unit {0})
  publish_on msg p s =
      lift (λ (c : Client G). (record p { impl = record p.impl { shm_handle_ = c.shm } }, c.shared))
        (publish_msg msg (record { shm = p.impl.shm_handle_; shared = s }))

module _ (G : Segment) (others : Others G) (env : Environment) where
  -- The publisher beside the shared state.
  abbrev pub Sending : Type 0
  Sending = SharedmemPublisherImpl × Shared G

  -- The end of `initialise`, on what `allocateBlock` gave.
  unfoldable pub connect : SharedmemPublisherImpl → Outcome (Shared G) ShmHandle → Outcome Sending ℕ
  connect p (ok shm s) = ok shm.handle (record p { connected = true; shm_handle_ = shm }, s)
  connect p (bad_alloc s) = ok failed (record p { connected = false }, s)
  connect p (overrun s) = overrun (record p { connected = true }, s)
  connect p aborted = aborted
  connect p out_of_bounds = out_of_bounds
  connect p (thrown s) = thrown (record p { connected = true }, s)

  -- `initialise` from the opening of the segment on.
  unfoldable pub open_segment :
      Opening → Bool → List ℕ → SharedmemPublisherImpl → Shared G → Outcome Sending ℕ
  open_segment no_memory manager topic p s = ok failed (record p { connected = false }, s)
  open_segment refused manager topic p s = thrown (p, s)
  open_segment opened false topic p s = ok failed (record p { connected = false }, s)
  open_segment opened true topic p s =
      connect p (allocate_block G others (c_str env.beyond topic) 16 s)

  unfoldable pub initialise : List ℕ → Sending → Outcome Sending ℕ
  initialise topic (p, s) =
      if p.client_registered
      then ok p.shm_handle_.handle (p, s)
      else open_segment env.opening env.manager topic (record p { client_registered = true }) s

  module _ {T : Type 0} (S : Serializer T) where
    -- `SharedmemPublisher::publish` after `initialise` on the first run.
    unfoldable pub first_publish :
        T
        → SharedmemPublisher
        → Outcome Sending ℕ
        → Outcome (SharedmemPublisher × Shared G) (Unit {0})
    first_publish msg p (ok _ (i, s)) =
        publish_on G others S msg (record p { impl = i; first_run_ = false }) s
    first_publish msg p (bad_alloc (i, s)) = bad_alloc (record p { impl = i }, s)
    first_publish msg p (overrun (i, s)) = overrun (record p { impl = i }, s)
    first_publish msg p aborted = aborted
    first_publish msg p out_of_bounds = out_of_bounds
    first_publish msg p (thrown (i, s)) = thrown (record p { impl = i }, s)

    unfoldable pub publish :
        T → SharedmemPublisher × Shared G → Outcome (SharedmemPublisher × Shared G) (Unit {0})
    publish msg (p, s) =
        if p.first_run_
        then first_publish msg p (initialise p.base_topic_ (p.impl, s))
        else publish_on G others S msg p s
