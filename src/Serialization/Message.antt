-- ===== src/Serialization/Message.antt =====
-- `RawMessage` of message_types.h and its serializer. `alloc` is the allocator: `none` is bad_alloc.
use message_transport.Common.{
  ℕ, ◌+◌, ◌%◌, ◌^◌, Bool, true, false, Option, none, some, List, [], take, ltb, ◌==◌, if◌then◌else◌,
}
use message_transport.Common.Memory.{store}
use message_transport.Serialization.Stream.{
  Io, pure, ◌>>=◌, ◌>>◌, advance, write_at, read_at, get_length,
}
use message_transport.Serialization.Serializer.{Serializer}
use message_transport.Serialization.Scalars.{uint64, simple}
use message_transport.Serialization.Strings.{when}

-- `m_value` is the buffer that the pointer owns; nothing is left of one that was deallocated.
pub record RawMessage : Type 0 where
  pub timestamp : ℕ
  pub m_value : List ℕ
  pub m_allocated_bytes : ℕ

unfoldable pub new_message : RawMessage
new_message = record { timestamp = 0; m_value = []; m_allocated_bytes = 0 }

deallocate : RawMessage → RawMessage
deallocate m =
    if ltb 0 m.m_allocated_bytes then record m { m_value = []; m_allocated_bytes = 0 } else m

-- The new state, and what the method returns.
unfoldable pub allocate : (ℕ → Option (List ℕ)) → ℕ → RawMessage → RawMessage × Bool
unfolding deallocate
allocate alloc size m =
    if size == m.m_allocated_bytes
    then (m, true)
    else if ltb 0 size
    then elim (alloc size) [
      | some buffer ↦ (record (deallocate m) { m_value = buffer; m_allocated_bytes = size }, true)
      | none ↦ (deallocate m, false)
    ]
    else (deallocate m, true)

-- `nullptr` is `none`.
unfoldable pub get_data_ptr : RawMessage → Option (List ℕ)
get_data_ptr m = if m.m_allocated_bytes == 0 then none else some m.m_value

unfoldable pub get_data_length : RawMessage → ℕ
get_data_length m = m.m_allocated_bytes

unfoldable pub write_message : RawMessage → Io (Unit {0})
unfolding advance write_at get_data_length
write_message v = do
  (simple uint64).write v.timestamp
  let data_size = get_data_length v
  when (ltb 0 data_size) (advance data_size >>= λ p. write_at p (take data_size v.m_value))
      (pure tt)

-- The body of `if (v.allocate(data_size))`, on the state and answer of `allocate`.
unfoldable pub copy_message : ℕ → RawMessage × Bool → Io RawMessage
unfolding advance read_at
copy_message data_size (m, done) =
    when done
      (when (ltb 0 data_size)
        (advance data_size >>= λ p.
          read_at p data_size >>= λ bytes. pure (record m { m_value = store m.m_value 0 bytes }))
        (pure m))
      (pure m)

unfoldable pub read_message : (ℕ → Option (List ℕ)) → RawMessage → Io RawMessage
unfolding get_length
read_message alloc old = do
  stamp ← (simple uint64).read old.timestamp
  data_size ← get_length
  copy_message data_size (allocate alloc data_size (record old { timestamp = stamp }))

unfoldable pub message_length : RawMessage → ℕ
unfolding get_data_length
message_length v = (8 + get_data_length v) % 2 ^ 32

abbrev pub message : (ℕ → Option (List ℕ)) → Serializer RawMessage
message alloc = record {
  write = write_message;
  read = read_message alloc;
  serialized_length = message_length;
}

-- `MessageID<RawMessage>::getMessageID`
unfoldable pub get_message_id : RawMessage → ℕ
get_message_id m = m.timestamp
