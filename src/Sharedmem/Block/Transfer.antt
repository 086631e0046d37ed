-- ===== src/Sharedmem/Block/Transfer.antt =====
-- `serialize`, `wait_data` and `deserialize`: a message through the memory of a block.
use message_transport.Common.{ℕ, Bool, true, false, Option, none, some, ltb, if◌then◌else◌}
use message_transport.Serialization.Stream.{open_stream}
use message_transport.Serialization.Stream
use message_transport.Serialization.Serializer.{Serializer}
use message_transport.Serialization.Interface.{serialize, deserialize}
use message_transport.Sharedmem.Segment.{Segment}
use message_transport.Sharedmem.Descriptor.{register_client, unregister_client}
use message_transport.Sharedmem.Block.State.{
  num_block, ShmHandle, Outcome, ok, bad_alloc, overrun, aborted, out_of_bounds, thrown, Shared,
  Client, Others, set_descriptor, check_clients, register_global_client, unregister_global_client,
}
use message_transport.Sharedmem.Block.Operations.{update_handle, is_stale}

module _ (G : Segment) (others : Others G) {T : Type 0} (S : Serializer T) where
  abbrev pub refreshed : ShmHandle → Shared G → ShmHandle
  refreshed shm s = if is_stale G shm s then update_handle G shm s else shm

  -- The stream over the `size_` bytes at the handle's pointer.
  abbrev pub block_stream : ShmHandle → Shared G → Stream.Stream
  block_stream shm s = open_stream (G.bytes s.segment shm.ptr) 0 (s.descriptors shm.handle).size_

  abbrev pub with_bytes : ShmHandle → Stream.Stream → Shared G → Shared G
  with_bytes shm t s = record s { segment = G.put_bytes s.segment shm.ptr t.mem }

  -- `serialize` once the client is registered and the handle up to date, in the state `s`. A thrown
  -- overrun leaves the bytes that were written, and the global client registered.
  unfoldable pub serialize_through : T → ShmHandle → Shared G → Outcome (Client G) (Unit {0})
  serialize_through msg dest s = elim (serialize S msg (block_stream dest s)) [
    | Stream.ok _ t ↦ elim (unregister_global_client G (with_bytes dest t s)) [
      | some s' ↦ ok tt (record { shm = dest; shared = s' })
      | none ↦ aborted
    ]
    | Stream.overrun t ↦ overrun (record { shm = dest; shared = with_bytes dest t s })
  ]

  unfoldable pub serialize_registered : T → ShmHandle → Shared G → Outcome (Client G) (Unit {0})
  serialize_registered msg shm s =
      if ltb shm.handle num_block then serialize_through msg (refreshed shm s) s else out_of_bounds

  unfoldable pub serialize_message : T → Client G → Outcome (Client G) (Unit {0})
  serialize_message msg c =
      serialize_registered msg c.shm
        (register_global_client G (check_clients G others c.shm.handle c.shared))

  -- The protected `deserialize`: the target read from the block, and the handle up to date.
  unfoldable pub deserialize_message : T → Client G → Outcome (Client G) T
  deserialize_message old c =
      let src = refreshed c.shm c.shared in
      if ltb c.shm.handle num_block
      then elim (deserialize S old (block_stream src c.shared)) [
        | Stream.ok v _ ↦ ok v (record { shm = src; shared = c.shared })
        | Stream.overrun _ ↦ overrun (record { shm = src; shared = c.shared })
      ]
      else aborted

  -- `unregister_global_client` and `unregister_client`, one after the other.
  unfoldable pub leave : ℕ → Shared G → Option (Shared G)
  leave i s = elim (unregister_global_client G s) [
    | none ↦ none
    | some s' ↦ elim (unregister_client (s'.descriptors i)) [
      | none ↦ none
      | some d ↦ some (set_descriptor G i d s')
    ]
  ]

  -- `wait_data` after `deserialize`.
  unfoldable pub leave_after : ℕ → Outcome (Client G) T → Outcome (Client G) (Bool × T)
  leave_after i (ok v c) = elim (leave i c.shared) [
    | some s ↦ ok (true, v) (record { shm = c.shm; shared = s })
    | none ↦ aborted
  ]
  leave_after i (bad_alloc c) = bad_alloc c
  leave_after i (overrun c) = overrun c
  leave_after i aborted = aborted
  leave_after i out_of_bounds = out_of_bounds
  leave_after i (thrown c) = thrown c

  -- The answer, and the target: `false` when no data came in time.
  unfoldable pub wait_data : T → Client G → Outcome (Client G) (Bool × T)
  wait_data old c =
      let i = c.shm.handle in
      let (s, arrived) = others.arrival i c.shared in
      let entered =
        register_global_client G (set_descriptor G i (register_client (s.descriptors i)) s) in
      if ltb i num_block
      then (if arrived
          then leave_after i (deserialize_message old (record { shm = c.shm; shared = entered }))
          else ok (false, old) (record { shm = c.shm; shared = s }))
      else out_of_bounds
