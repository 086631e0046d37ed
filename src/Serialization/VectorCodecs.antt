-- ===== src/Serialization/VectorCodecs.antt =====
-- Vectors and arrays whose elements are serialized one by one meet the contract of their elements.
use message_transport.Common.{
  ℕ, zero, suc, ◌+◌, ◌*◌, ◌%◌, ◌^◌, ◌≤◌, ◌<◌, ◌≡◌, refl, sym, ap, ◌∙◌, List, [], ◌∷◌, ◌++◌, length,
  drop, flatten, length-append, append_assoc, All, arith,
}
use message_transport.Serialization.Stream.{Stream, ok, Io, ◌>>=◌, ◌>>◌}
use message_transport.Serialization.Puts.{puts, puts-append}
use message_transport.Serialization.Serializer.{Serializer, IsCodec, skipped}
use message_transport.Serialization.Scalars.{uint32, simple, length-to_bytes}
use message_transport.Serialization.Strings.{length_chunk, write_length, read_length, behind_length}
use message_transport.Serialization.Elements.{
  write_each, read_each, chunks_each, write_each_lem, add_lengths_lem, add_lengths-lt,
  read_each_lem, length-chunks_each,
}
use message_transport.Serialization.Vectors.{
  resize, vector, vector_write, vector_read, vector_length, fixed_vector, fixed_vector_write,
  fixed_vector_read, fixed_vector_length,
}
use message_transport.Serialization.Arrays.{
  array, array_write, array_read, array_length, fixed_array, fixed_array_write, fixed_array_read,
  fixed_array_length,
}
use native.Mathlib.Nat.{mod-eq_of_lt, mul_comm}

pub length-resize {ℓ} :
    {T : Type ℓ} (blank : T) (n : ℕ) (xs : List T) → length (resize blank n xs) ≡ n
unfolding resize
length-resize blank zero xs = refl
length-resize blank (suc n) [] = ap suc (length-resize blank n [])
length-resize blank (suc n) (x ∷ xs) = ap suc (length-resize blank n xs)

pub All-resize {ℓ} :
    {T : Type ℓ} (P : T → Type 0) (blank : T) (n : ℕ) (xs : List T)
    → P blank
    → All P xs
    → All P (resize blank n xs)
unfolding resize
All-resize P blank zero xs h k = tt
All-resize P blank (suc n) [] h k = (h, All-resize P blank n [] h tt)
All-resize P blank (suc n) (x ∷ xs) h k = (k.0, All-resize P blank n xs h k.1)

module _ {ℓ} {T : Type ℓ} (S : Serializer T) (chunks : T → List (List ℕ)) (Fits Target : T → Type 0)
    (codec : IsCodec S chunks Fits Target) where
  abbrev pub vector_chunks : List T → List (List ℕ)
  vector_chunks v = length_chunk (length v) ∷ chunks_each chunks v

  abbrev pub VectorFits : List T → Type 0
  VectorFits v = (length v < 2 ^ 32) × All Fits v

  pub length-vector_chunks :
      (v : List T)
      → length (flatten (vector_chunks v)) ≡ 4 + length (flatten (chunks_each chunks v))
  length-vector_chunks v =
      length-append (length_chunk (length v)) (flatten (chunks_each chunks v)) ∙ rw length-to_bytes

  counted_write :
      (v : List T)
      → VectorFits v
      → ((simple uint32).write (length v % 2 ^ 32) >> write_each S v) ≡ puts (vector_chunks v)
  counted_write v (h, k) =
      ap (λ (m : Io (Unit {0})). m >> write_each S v)
        (rw (mod-eq_of_lt h) (write_length (length v) h))
      ∙ ap (λ (m : Io (Unit {0})). puts (length_chunk (length v) ∷ []) >> m)
          (write_each_lem S chunks Fits Target codec v k)
      ∙ sym (puts-append (length_chunk (length v) ∷ []) (chunks_each chunks v))

  module _ (blank : T) (blank_target : Target blank) where
    counted_read :
        (v old : List T) (c : Stream) (rest : List ℕ)
        → VectorFits v
        → All Target old
        → drop c.data_ c.mem ≡ flatten (vector_chunks v) ++ rest
        → c.data_ + length (flatten (vector_chunks v)) ≤ c.end_
        → vector_read S blank old c ≡ ok v (skipped c (length (flatten (vector_chunks v))))
    unfolding vector_read
    counted_read v old c rest (h, k) t e b =
        rw
          (
            read_length (length v) 0 c (flatten (chunks_each chunks v) ++ rest) h ahead
                (omega (arith, total)),
            ◌>>=◌,
          )
          (read_each_lem S chunks Fits Target codec v (resize blank (length v) old) (skipped c 4)
              rest (length-resize blank (length v) old) k
              (All-resize Target blank (length v) old blank_target t)
              (behind_length (length v) c (flatten (chunks_each chunks v) ++ rest) ahead)
              (omega (arith, total))
            ∙ ap (ok v) (ground (arith, total)))
      where
        total : length (flatten (vector_chunks v)) ≡ 4 + length (flatten (chunks_each chunks v))
        total = length-vector_chunks v

        ahead :
            drop c.data_ c.mem ≡ length_chunk (length v) ++ (flatten (chunks_each chunks v) ++ rest)
        ahead = e ∙ append_assoc (length_chunk (length v)) (flatten (chunks_each chunks v)) rest

    vector_length_lem :
        (v : List T)
        → VectorFits v
        → vector_length S blank v ≡ length (flatten (vector_chunks v)) % 2 ^ 32
    unfolding vector_length
    vector_length_lem v (h, k) = omega (
      arith,
      add_lengths_lem S chunks Fits Target codec v 4 k,
      add_lengths-lt S chunks Fits Target codec v 4 (omega arith),
      length-vector_chunks v,
    )

    -- Vectors of any element type that meets the contract, below 2^32 elements.
    pub vector-IsCodec : IsCodec (vector S blank) vector_chunks VectorFits (All Target)
    unfolding vector_write
    vector-IsCodec = record {
      write_lem = counted_write;
      serialized_length_lem = vector_length_lem;
      read_lem = counted_read;
    }

    -- `IsFixedSize`: every value takes `k` bytes.
    module _ (k : ℕ) (k_fits : k < 2 ^ 32)
        (same : (v : T) → Fits v → length (flatten (chunks v)) ≡ k) where
      pub length-fixed_chunks :
          (vs : List T) → All Fits vs → length (flatten (chunks_each chunks vs)) ≡ length vs * k
      length-fixed_chunks [] h = omega arith
      length-fixed_chunks (v ∷ vs) h =
          length-chunks_each S chunks Fits Target codec v vs
          ∙ omega (arith, same v h.0, length-fixed_chunks vs h.1)

      front_length : (v : T) → Fits v → S.serialized_length v ≡ k
      front_length v h = codec.serialized_length_lem v h ∙ rw (same v h) (mod-eq_of_lt k_fits)

      fixed_vector_length_lem :
          (v : List T)
          → VectorFits v
          → fixed_vector_length S blank v ≡ length (flatten (vector_chunks v)) % 2 ^ 32
      unfolding fixed_vector_length
      fixed_vector_length_lem [] h = rw (length-vector_chunks []) refl
      fixed_vector_length_lem (v ∷ vs) (h, all) =
          rw
            (
              length-vector_chunks (v ∷ vs),
              length-fixed_chunks (v ∷ vs) all,
              front_length v all.0,
              mod-eq_of_lt h,
            )
            (omega arith)

      -- Vectors of `bool` and of other types of one size that are not copied as memory.
      pub fixed_vector-IsCodec :
          IsCodec (fixed_vector S blank) vector_chunks VectorFits (All Target)
      unfolding fixed_vector_write fixed_vector_read vector_read
      fixed_vector-IsCodec = record {
        write_lem = counted_write;
        serialized_length_lem = fixed_vector_length_lem;
        read_lem = counted_read;
      }

  module _ (n : ℕ) where
    abbrev pub ArrayFits : List T → Type 0
    ArrayFits v = (length v ≡ n) × All Fits v

    abbrev pub ArrayTarget : List T → Type 0
    ArrayTarget v = (length v ≡ n) × All Target v

    array_read_lem :
        (v old : List T) (c : Stream) (rest : List ℕ)
        → ArrayFits v
        → ArrayTarget old
        → drop c.data_ c.mem ≡ flatten (chunks_each chunks v) ++ rest
        → c.data_ + length (flatten (chunks_each chunks v)) ≤ c.end_
        → read_each S old c ≡ ok v (skipped c (length (flatten (chunks_each chunks v))))
    array_read_lem v old c rest (h, all) (t, targets) e b =
        read_each_lem S chunks Fits Target codec v old c rest (omega arith) all targets e b

    -- Arrays whose elements vary in size.
    pub array-IsCodec : IsCodec (array S n) (chunks_each chunks) ArrayFits ArrayTarget
    unfolding array_write array_read array_length
    array-IsCodec = record {
      write_lem = λ v h. write_each_lem S chunks Fits Target codec v h.1;
      serialized_length_lem = λ v h. omega (
        arith,
        add_lengths_lem S chunks Fits Target codec v 0 h.1,
        add_lengths-lt S chunks Fits Target codec v 0 (omega arith),
      );
      read_lem = array_read_lem;
    }

    -- An array of `n` elements of `k` bytes; without an element there is no `front`.
    module _ (k : ℕ) (k_fits : k < 2 ^ 32)
        (same : (v : T) → Fits v → length (flatten (chunks v)) ≡ k) (some_element : 0 < n)
        (blank : T) (blank_target : Target blank) where
      fixed_array_length_lem :
          (v : List T)
          → ArrayFits v
          → fixed_array_length S n v ≡ length (flatten (chunks_each chunks v)) % 2 ^ 32
      unfolding fixed_array_length
      fixed_array_length_lem [] h = absurd (omega arith)
      fixed_array_length_lem (v ∷ vs) (h, all) =
          rw
            (
              length-fixed_chunks blank blank_target k k_fits same (v ∷ vs) all,
              front_length blank blank_target k k_fits same v all.0,
              h,
            )
            (ap (λ (m : ℕ). m % 2 ^ 32) (mul_comm k n))

      pub fixed_array-IsCodec : IsCodec (fixed_array S n) (chunks_each chunks) ArrayFits ArrayTarget
      unfolding fixed_array_write fixed_array_read
      fixed_array-IsCodec = record {
        write_lem = λ v h. write_each_lem S chunks Fits Target codec v h.1;
        serialized_length_lem = fixed_array_length_lem;
        read_lem = array_read_lem;
      }
