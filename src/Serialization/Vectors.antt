-- ===== src/Serialization/Vectors.antt =====
-- `VectorSerializer`, in its three specialisations. The length goes first, in uint32_t.
use message_transport.Common.{
  ℕ, zero, suc, ◌+◌, ◌*◌, ◌%◌, ◌^◌, Bool, true, false, List, [], ◌∷◌, ◌++◌, length, take, drop, ltb,
}
use message_transport.Common.Memory.{store}
use message_transport.Serialization.Stream.{Io, pure, ◌>>=◌, ◌>>◌, advance, write_at, read_at}
use message_transport.Serialization.Serializer.{Serializer}
use message_transport.Serialization.Scalars.{Scalar, uint32, simple, sizeof, to_bytes, of_bytes}
use message_transport.Serialization.Strings.{when}
use message_transport.Serialization.Elements.{write_each, read_each, add_lengths}

-- `v.resize(n)`: old elements stay, new ones are value-initialised.
unfoldable pub resize {ℓ} : {T : Type ℓ} → T → ℕ → List T → List T
resize blank zero xs = []
resize blank (suc n) [] = blank ∷ resize blank n []
resize blank (suc n) (x ∷ xs) = x ∷ resize blank n xs

-- `!v.empty()`
abbrev pub is_nonempty {ℓ} : {T : Type ℓ} → List T → Bool
is_nonempty [] = false
is_nonempty (x ∷ xs) = true

module _ {ℓ} {T : Type ℓ} (S : Serializer T) (blank : T) where
  -- Elements of variable size.
  unfoldable pub vector_write : List T → Io (Unit {0})
  vector_write v = do (simple uint32).write (length v % 2 ^ 32); write_each S v

  unfoldable pub vector_read : List T → Io (List T)
  vector_read old = do len ← (simple uint32).read 0; read_each S (resize blank len old)

  unfoldable pub vector_length : List T → ℕ
  vector_length v = add_lengths S 4 v

  abbrev pub vector : Serializer (List T)
  vector = record { write = vector_write; read = vector_read; serialized_length = vector_length }

  -- Elements of one size that are not copied as memory.
  unfoldable pub fixed_vector_write : List T → Io (Unit {0})
  fixed_vector_write v = do (simple uint32).write (length v % 2 ^ 32); write_each S v

  unfoldable pub fixed_vector_read : List T → Io (List T)
  fixed_vector_read old = do len ← (simple uint32).read 0; read_each S (resize blank len old)

  -- `len_each` is the length of the first element.
  unfoldable pub fixed_vector_length : List T → ℕ
  fixed_vector_length [] = 4
  fixed_vector_length (x ∷ xs) = (4 + S.serialized_length x * (length (x ∷ xs) % 2 ^ 32)) % 2 ^ 32

  abbrev pub fixed_vector : Serializer (List T)
  fixed_vector = record {
    write = fixed_vector_write;
    read = fixed_vector_read;
    serialized_length = fixed_vector_length;
  }

-- The memory of a vector or array of arithmetic values of `k` bytes, and back.
unfoldable pub to_memory : ℕ → List ℕ → List ℕ
to_memory k [] = []
to_memory k (v ∷ vs) = to_bytes k v ++ to_memory k vs

unfoldable pub of_memory : ℕ → ℕ → List ℕ → List ℕ
of_memory k zero bytes = []
of_memory k (suc n) bytes = of_bytes (take k bytes) ∷ of_memory k n (drop k bytes)

-- `memcpy(&v.front(), bytes, …)`
abbrev pub copy_into : ℕ → List ℕ → List ℕ → List ℕ
copy_into k v bytes = of_memory k (length v) (store (to_memory k v) 0 bytes)

module _ (t : Scalar) where
  unfoldable pub simple_vector_write : List ℕ → Io (Unit {0})
  unfolding advance write_at
  simple_vector_write v = do
    let len = length v % 2 ^ 32
    let data_len = len * sizeof t % 2 ^ 32
    (simple uint32).write len
    when (is_nonempty v)
        (advance data_len >>= λ p. write_at p (take data_len (to_memory (sizeof t) v))) (pure tt)

  unfoldable pub simple_vector_read : List ℕ → Io (List ℕ)
  unfolding advance read_at
  simple_vector_read old = do
    len ← (simple uint32).read 0
    let v = resize 0 len old
    let data_len = sizeof t * len % 2 ^ 32
    when (ltb 0 len)
        (advance data_len >>= λ p.
          read_at p data_len >>= λ bytes. pure (copy_into (sizeof t) v bytes))
        (pure v)

  unfoldable pub simple_vector_length : List ℕ → ℕ
  simple_vector_length v = (4 + length v * sizeof t) % 2 ^ 32

  abbrev pub simple_vector : Serializer (List ℕ)
  simple_vector = record {
    write = simple_vector_write;
    read = simple_vector_read;
    serialized_length = simple_vector_length;
  }
