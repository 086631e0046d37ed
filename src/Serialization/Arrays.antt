-- ===== src/Serialization/Arrays.antt =====
-- `ArraySerializer`, in its three specialisations, for arrays of `n` elements: no length is written.
use message_transport.Common.{ℕ, ◌*◌, ◌%◌, ◌^◌, List, [], ◌∷◌, take}
use message_transport.Serialization.Stream.{Io, pure, ◌>>=◌, advance, write_at, read_at}
use message_transport.Serialization.Serializer.{Serializer}
use message_transport.Serialization.Scalars.{Scalar, sizeof}
use message_transport.Serialization.Elements.{write_each, read_each, add_lengths}
use message_transport.Serialization.Vectors.{to_memory, copy_into}

module _ {ℓ} {T : Type ℓ} (S : Serializer T) (n : ℕ) where
  -- Elements of variable size.
  unfoldable pub array_write : List T → Io (Unit {0})
  array_write v = write_each S v

  unfoldable pub array_read : List T → Io (List T)
  array_read old = read_each S old

  unfoldable pub array_length : List T → ℕ
  array_length v = add_lengths S 0 v

  abbrev pub array : Serializer (List T)
  array = record { write = array_write; read = array_read; serialized_length = array_length }

  -- Elements of one size that are not copied as memory.
  unfoldable pub fixed_array_write : List T → Io (Unit {0})
  fixed_array_write v = write_each S v

  unfoldable pub fixed_array_read : List T → Io (List T)
  fixed_array_read old = read_each S old

  -- `v.front()` of an array of length 0 is undefined; the model answers 0 there.
  unfoldable pub fixed_array_length : List T → ℕ
  fixed_array_length [] = 0
  fixed_array_length (x ∷ xs) = S.serialized_length x * n % 2 ^ 32

  abbrev pub fixed_array : Serializer (List T)
  fixed_array = record {
    write = fixed_array_write;
    read = fixed_array_read;
    serialized_length = fixed_array_length;
  }

module _ (t : Scalar) (n : ℕ) where
  unfoldable pub simple_array_write : List ℕ → Io (Unit {0})
  unfolding advance write_at
  simple_array_write v = do
    let data_len = n * sizeof t % 2 ^ 32
    p ← advance data_len
    write_at p (take data_len (to_memory (sizeof t) v))

  unfoldable pub simple_array_read : List ℕ → Io (List ℕ)
  unfolding advance read_at
  simple_array_read old = do
    let data_len = n * sizeof t % 2 ^ 32
    p ← advance data_len
    bytes ← read_at p data_len
    pure (copy_into (sizeof t) old bytes)

  unfoldable pub simple_array_length : List ℕ → ℕ
  simple_array_length v = n * sizeof t % 2 ^ 32

  abbrev pub simple_array : Serializer (List ℕ)
  simple_array = record {
    write = simple_array_write;
    read = simple_array_read;
    serialized_length = simple_array_length;
  }
