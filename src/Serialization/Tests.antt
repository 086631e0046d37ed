-- ===== src/Serialization/Tests.antt =====
-- Runs of the serializers on small inputs, and the theorems at such inputs.
use message_transport.Common.{
  ℕ, ◌<◌, ◌≡◌, refl, Option, none, some, List, [], ◌∷◌, length, replicate, arith,
}
use message_transport.Common.Memory.{store}
use message_transport.Serialization.Stream.{Stream, ok, overrun}
use message_transport.Serialization.Scalars.{uint16, sizeof, to_bytes, write_scalar}
use message_transport.Serialization.Strings.{string, string_chunks, string-IsCodec}
use message_transport.Serialization.Vectors.{vector, simple_vector_write, to_memory}
use message_transport.Serialization.Interface.{RoundTrips, Overruns}
use message_transport.Serialization.Message.{
  RawMessage, message, read_message, write_message, get_data_ptr, get_data_length,
}
use message_transport.Serialization.MessageLaws.{message_round_trip, read_message_no_memory}
use message_transport.Serialization.RoundTrip.{vector_round_trip, serialize-Overruns}
use message_transport.Serialization.Fields.{Field, text, array_of}

-- A block of `n` bytes, all 0.
abbrev block : ℕ → List ℕ
block n = replicate n 0

abbrev two_texts : List (List ℕ)
two_texts = (104 ∷ 105 ∷ []) ∷ [] ∷ []

abbrev plenty : ℕ → Option (List ℕ)
plenty n = some (replicate n 0)

abbrev hello : RawMessage
hello = record { timestamp = 513; m_value = 7 ∷ 8 ∷ 9 ∷ []; m_allocated_bytes = 3 }

abbrev blank_message : RawMessage
blank_message = record { timestamp = 0; m_value = []; m_allocated_bytes = 0 }

write_message_run :
    write_message hello (record { mem = block 12; data_ = 0; end_ = 11 })
    ≡ ok tt
        (record { mem = 1 ∷ 2 ∷ 0 ∷ 0 ∷ 0 ∷ 0 ∷ 0 ∷ 0 ∷ 7 ∷ 8 ∷ 9 ∷ 0 ∷ []; data_ = 11; end_ = 11 })
unfolding write_message write_scalar to_bytes sizeof store
write_message_run = refl

-- Of a vector of two 16-bit values, a stream of 6 bytes takes the length only.
vector_run :
    simple_vector_write uint16 (1 ∷ 2 ∷ []) (record { mem = block 8; data_ = 0; end_ = 6 })
    ≡ overrun (record { mem = 2 ∷ 0 ∷ 0 ∷ 0 ∷ 0 ∷ 0 ∷ 0 ∷ 0 ∷ []; data_ = 8; end_ = 6 })
unfolding simple_vector_write write_scalar to_bytes sizeof store to_memory
vector_run = refl

vector_round_trip_example : RoundTrips (vector string []) two_texts [] (block 16) 1
unfolding to_bytes
vector_round_trip_example =
    vector_round_trip string string_chunks (λ str. length str < 4294967296) (λ _. Unit)
      string-IsCodec [] two_texts [] (block 16) 1 tt (omega arith) (omega arith) tt (omega arith)
      (omega arith)

serialize-Overruns_example :
    Overruns string (104 ∷ 105 ∷ []) (record { mem = block 8; data_ = 1; end_ = 6 })
unfolding to_bytes
serialize-Overruns_example =
    serialize-Overruns string string_chunks (λ str. length str < 4294967296) (λ _. Unit)
      string-IsCodec (104 ∷ 105 ∷ []) (record { mem = block 8; data_ = 1; end_ = 6 }) (omega arith)
      (omega arith) (omega arith)

abbrev wide_stream : Stream
wide_stream = record { mem = block 9; data_ = 1; end_ = 9 }

message_round_trip_example : RoundTrips (message plenty) hello blank_message (block 13) 1
message_round_trip_example =
    message_round_trip plenty hello blank_message (block 13) 1 refl refl (omega arith) (omega arith)
      (replicate 3 0, refl, refl) (omega arith)

read_message_no_memory_example :
    (m : RawMessage) × (read_message
        (λ _. none)
        blank_message
        (record { mem = 5 ∷ block 9; data_ = 0; end_ = 10 })
      ≡ ok m (record { mem = 5 ∷ block 9; data_ = 8; end_ = 10 }))
    × (m.timestamp ≡ 5)
    × (get_data_length m ≡ 0)
    × (get_data_ptr m ≡ none)
unfolding to_bytes
read_message_no_memory_example =
    read_message_no_memory (λ _. none) 5 2 (0 ∷ 0 ∷ []) blank_message
      (record { mem = 5 ∷ block 9; data_ = 0; end_ = 10 }) (omega arith) (omega arith) (omega arith)
      (λ e. omega arith) refl refl refl

-- `boost::array<std::string, 2>`
abbrev pair_of_texts : Field
pair_of_texts = array_of 2 text
