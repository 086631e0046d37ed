-- ===== src/Serialization/Interface.antt =====
-- The free functions `serialize`, `deserialize` and `serializationLength`, the streams' `next`, and
-- the length stream; what the contract of a serializer gives for them.
use message_transport.Common.{
  ℕ, ◌+◌, ◌%◌, ◌^◌, ◌≤◌, ◌<◌, ◌≡◌, ◌∙◌, List, ◌++◌, length, drop, flatten, arith,
}
use message_transport.Common.Memory.{Frame, store-Frame, drop-store}
use message_transport.Serialization.Stream.{Stream, ok, overrun, Io, open_stream}
use message_transport.Serialization.Puts.{puts_fit, puts_overrun, written}
use message_transport.Serialization.Serializer.{Serializer, IsCodec, skipped}
use native.Mathlib.Nat.{mod-eq_of_lt}

module _ {ℓ} {T : Type ℓ} (S : Serializer T) where
  unfoldable pub serialize : T → Io (Unit {0})
  serialize v = S.write v

  unfoldable pub deserialize : T → Io T
  deserialize old = S.read old

  unfoldable pub serialization_length : T → ℕ
  serialization_length v = S.serialized_length v

  -- `OStream::next` and `operator<<`; `IStream::next` and `operator>>`.
  unfoldable pub next_out : T → Io (Unit {0})
  unfolding serialize
  next_out v = serialize v

  unfoldable pub next_in : T → Io T
  unfolding deserialize
  next_in old = deserialize old

-- `LStream` is its counter.
pub record LStream : Type 0 where
  pub count_ : ℕ

unfoldable pub new_l_stream : LStream
new_l_stream = record { count_ = 0 }

unfoldable pub l_next {ℓ} : {T : Type ℓ} → Serializer T → T → LStream → LStream
unfolding serialization_length
l_next S v l = record { count_ = (l.count_ + serialization_length S v) % 2 ^ 32 }

unfoldable pub l_advance : ℕ → LStream → ℕ × LStream
l_advance len l = (l.count_, record { count_ = (l.count_ + len) % 2 ^ 32 })

-- A value goes out through a stream of exactly the announced length, and comes back whole through a
-- stream over the same bytes; nothing outside those bytes changes.
abbrev pub RoundTrips {ℓ} : {T : Type ℓ} → Serializer T → T → T → List ℕ → ℕ → Type ℓ
RoundTrips S v old mem start =
    let n = serialization_length S v in
    (t : Stream) × (serialize S v (open_stream mem start n) ≡ ok tt t)
    × (deserialize S old (open_stream t.mem start n) ≡ ok v t)
    × Frame start (start + n) mem t.mem

-- The exception, with nothing changed outside the stream.
abbrev pub Overruns {ℓ} : {T : Type ℓ} → Serializer T → T → Stream → Type 0
Overruns S v s = (t : Stream) × (serialize S v s ≡ overrun t) × Frame s.data_ s.end_ s.mem t.mem

module _ {ℓ} {T : Type ℓ} (S : Serializer T) (chunks : T → List (List ℕ)) (Fits Target : T → Type 0)
    (codec : IsCodec S chunks Fits Target) where
  announced :
      (v : T)
      → Fits v
      → length (flatten (chunks v)) < 2 ^ 32
      → serialization_length S v ≡ length (flatten (chunks v))
  unfolding serialization_length
  announced v h small = codec.serialized_length_lem v h ∙ mod-eq_of_lt small

  -- Writing where there is room.
  pub write_fits :
      (v : T) (s : Stream)
      → Fits v
      → s.data_ + length (flatten (chunks v)) ≤ s.end_
      → S.write v s ≡ ok tt (written s (flatten (chunks v)))
  write_fits v s h room = rw (codec.write_lem v h) (puts_fit (chunks v) s room)

  -- Reading what was written.
  pub read_written :
      (v old : T) (s c : Stream) (rest : List ℕ)
      → Fits v
      → Target old
      → c.data_ ≡ s.data_
      → drop s.data_ c.mem ≡ flatten (chunks v) ++ rest
      → s.data_ + length (flatten (chunks v)) ≤ c.end_
      → S.read old c ≡ ok v (skipped c (length (flatten (chunks v))))
  read_written v old s c rest h t same ahead room =
      codec.read_lem v old c rest h t (rw same ahead) (rw same room)

  pub codec-RoundTrips :
      (v old : T) (mem : List ℕ) (start : ℕ)
      → Fits v
      → Target old
      → length (flatten (chunks v)) < 2 ^ 32
      → start + length (flatten (chunks v)) ≤ length mem
      → RoundTrips S v old mem start
  unfolding serialize deserialize open_stream
  codec-RoundTrips v old mem start h target small room = rw (announced v h small) (
    written s bytes,
    write_fits v s h (omega arith),
    codec.read_lem v old
        (record { mem = (written s bytes).mem; data_ = start; end_ = start + length bytes })
        (drop (start + length bytes) mem) h target (drop-store mem start bytes room) (omega arith),
    store-Frame start (start + length bytes) mem start bytes (omega arith) (omega arith),
  )
    where
      bytes : List ℕ
      bytes = flatten (chunks v)

      s : Stream
      s = record { mem = mem; data_ = start; end_ = start + length bytes }

  pub codec-Overruns :
      (v : T) (s : Stream)
      → Fits v
      → s.data_ ≤ s.end_
      → s.end_ < s.data_ + length (flatten (chunks v))
      → Overruns S v s
  unfolding serialize
  codec-Overruns v s h b over = rw (codec.write_lem v h) (puts_overrun (chunks v) s b over)
