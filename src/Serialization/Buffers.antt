-- ===== src/Serialization/Buffers.antt =====
-- The buffer of a raw message: its size, and what `allocate` makes of it.
use message_transport.Common.{
  ℕ, ◌<◌, ◌≡◌, ◌≢◌, true, false, Option, none, some, List, length, arith,
}
use message_transport.Serialization.Message.{RawMessage, allocate, get_data_ptr, get_data_length}

-- The buffer has the size that the message says.
abbrev pub IsMessage : RawMessage → Type 0
IsMessage m = length m.m_value ≡ m.m_allocated_bytes

-- A buffer from the allocator has the size that was asked for.
abbrev pub Allocates : (ℕ → Option (List ℕ)) → ℕ → Type 0
Allocates alloc size = (buffer : List ℕ) × (alloc size ≡ some buffer) × (length buffer ≡ size)

-- Where the allocator has room, `allocate` gives a buffer of the size and keeps the time.
pub allocate_lem :
    (alloc : ℕ → Option (List ℕ)) (size : ℕ) (m : RawMessage)
    → Allocates alloc size
    → IsMessage m
    → ((allocate alloc size m).1 ≡ true)
      × ((allocate alloc size m).0.m_allocated_bytes ≡ size)
      × (length (allocate alloc size m).0.m_value ≡ size)
      × ((allocate alloc size m).0.timestamp ≡ m.timestamp)
unfolding allocate
allocate_lem alloc size m (buffer, e, l) v = ground arith

-- Where it has none, the old buffer is gone, and the message says so.
pub allocate_fails :
    (alloc : ℕ → Option (List ℕ)) (size : ℕ) (m : RawMessage)
    → alloc size ≡ none
    → 0 < size
    → size ≢ m.m_allocated_bytes
    → ((allocate alloc size m).1 ≡ false)
      × (get_data_length (allocate alloc size m).0 ≡ 0)
      × (get_data_ptr (allocate alloc size m).0 ≡ none)
      × ((allocate alloc size m).0.timestamp ≡ m.timestamp)
unfolding allocate get_data_ptr get_data_length
allocate_fails alloc size m e h k = ground arith
