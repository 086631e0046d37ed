-- ===== src/Serialization/Serializer.antt =====
-- The interface `Serializer<T>` of serialization.h, and what the framework expects of one.
use message_transport.Common.{ℕ, ◌+◌, ◌%◌, ◌^◌, ◌≤◌, ◌≡◌, List, ◌++◌, length, drop, flatten}
use message_transport.Serialization.Stream.{Stream, ok, Io}
use message_transport.Serialization.Puts.{puts}

-- `read` overwrites its argument, so it takes the old value.
pub record Serializer {ℓ} (T : Type ℓ) : Type ℓ where
  pub write : T → Io (Unit {0})
  pub read : T → Io T
  pub serialized_length : T → ℕ

-- The stream behind `n` bytes that were read.
abbrev pub skipped : Stream → ℕ → Stream
skipped s n = record s { data_ = s.data_ + n }

-- The contract, on the values that satisfy `Fits` and the objects that satisfy `Target`: what is
-- written is the sequence `chunks`, the announced length is theirs in uint32_t, and `read` takes
-- back exactly those bytes into any target.
pub record IsCodec {ℓ} {T : Type ℓ} (s : Serializer T) (chunks : T → List (List ℕ))
    (Fits Target : T → Type 0) : Type ℓ where
  pub write_lem : (v : T) → Fits v → s.write v ≡ puts (chunks v)
  pub serialized_length_lem :
      (v : T) → Fits v → s.serialized_length v ≡ length (flatten (chunks v)) % 2 ^ 32
  pub read_lem :
      (v old : T) (c : Stream) (rest : List ℕ)
      → Fits v
      → Target old
      → drop c.data_ c.mem ≡ flatten (chunks v) ++ rest
      → c.data_ + length (flatten (chunks v)) ≤ c.end_
      → s.read old c ≡ ok v (skipped c (length (flatten (chunks v))))
