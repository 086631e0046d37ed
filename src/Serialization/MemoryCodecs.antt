-- ===== src/Serialization/MemoryCodecs.antt =====
-- Vectors and arrays of arithmetic values are copied as one piece of memory, and meet the contract.
use message_transport.Common.{
  ℕ, zero, suc, ◌+◌, ◌*◌, ◌%◌, ◌^◌, ◌≤◌, ◌<◌, ◌≡◌, refl, sym, ap, ◌∙◌, fun_ext, List, [], ◌∷◌, ◌++◌,
  length, take, drop, flatten, length-append, append-nil, append_assoc, take-length,
  take-length-append, drop-length-append, All, arith, ltb, lt→ltb,
}
use message_transport.Common.Memory.{store, drop-store}
use message_transport.Serialization.Stream.{
  Stream, ok, Io, pure, ◌>>=◌, ◌>>◌, advance, write_at, read_at,
}
use message_transport.Serialization.Puts.{put, puts, puts-append}
use message_transport.Serialization.Serializer.{IsCodec, skipped}
use message_transport.Serialization.Scalars.{
  Scalar, sizeof, to_bytes, length-to_bytes, of_bytes-to_bytes, load_ahead,
}
use message_transport.Serialization.Strings.{
  when, length_chunk, write_length, read_length, behind_length,
}
use message_transport.Serialization.Vectors.{
  resize, is_nonempty, to_memory, of_memory, copy_into, simple_vector, simple_vector_write,
  simple_vector_read, simple_vector_length,
}
use message_transport.Serialization.Arrays.{
  simple_array, simple_array_write, simple_array_read, simple_array_length,
}
use message_transport.Serialization.VectorCodecs.{length-resize}
use native.Mathlib.Nat.{mod-eq_of_lt, mul_comm}

pub length-to_memory : (k : ℕ) (vs : List ℕ) → length (to_memory k vs) ≡ length vs * k
unfolding to_memory
length-to_memory k [] = omega arith
length-to_memory k (v ∷ vs) =
    length-append (to_bytes k v) (to_memory k vs)
    ∙ omega (arith, length-to_bytes k v, length-to_memory k vs)

-- The object representation holds the values.
pub of_memory-to_memory :
    (k : ℕ) (vs : List ℕ)
    → All (λ v. v < 256 ^ k) vs
    → of_memory k (length vs) (to_memory k vs) ≡ vs
unfolding to_memory of_memory
of_memory-to_memory k [] h = refl
of_memory-to_memory k (v ∷ vs) h =
    rw (front, back, of_bytes-to_bytes k v h.0, of_memory-to_memory k vs h.1)
  where
    front : take k (to_bytes k v ++ to_memory k vs) ≡ to_bytes k v
    front = rw (length-to_bytes k v) at (take-length-append (to_bytes k v) (to_memory k vs))

    back : drop k (to_bytes k v ++ to_memory k vs) ≡ to_memory k vs
    back = rw (length-to_bytes k v) at (drop-length-append (to_bytes k v) (to_memory k vs))

drop_all : (n : ℕ) (m : List ℕ) → length m ≤ n → ◌≡◌ {A = List ℕ} (drop n m) []
drop_all zero [] h = refl
drop_all zero (x ∷ m) h = absurd (omega arith)
drop_all (suc n) [] h = refl
drop_all (suc n) (x ∷ m) h = drop_all n m (omega arith)

pub store_all : (m bytes : List ℕ) → length m ≡ length bytes → store m 0 bytes ≡ bytes
store_all m bytes h =
    drop-store m 0 bytes (omega arith)
    ∙ rw (drop_all (0 + length bytes) m (omega arith)) (append-nil bytes)

-- Copying the memory of `vs` over any vector of the same length gives `vs`.
copy_into_lem :
    (k : ℕ) (v vs : List ℕ)
    → length v ≡ length vs
    → All (λ x. x < 256 ^ k) vs
    → copy_into k v (to_memory k vs) ≡ vs
copy_into_lem k v vs l h =
    rw (store_all (to_memory k v) (to_memory k vs) same_length, l) (of_memory-to_memory k vs h)
  where
    same_length : length (to_memory k v) ≡ length (to_memory k vs)
    same_length = length-to_memory k v ∙ ap (λ (m : ℕ). m * k) l ∙ sym (length-to_memory k vs)

module _ (t : Scalar) where
  abbrev Value : ℕ → Type 0
  Value v = v < 256 ^ sizeof t

  module _ (n : ℕ) (fits : n * sizeof t < 2 ^ 32) where
    abbrev pub simple_array_chunks : List ℕ → List (List ℕ)
    simple_array_chunks v = to_memory (sizeof t) v ∷ []

    pub memory_length : (v : List ℕ) → length v ≡ n → length (to_memory (sizeof t) v) ≡ n * sizeof t
    memory_length v h = length-to_memory (sizeof t) v ∙ ap (λ (m : ℕ). m * sizeof t) h

    simple_array_write_lem :
        (v : List ℕ) → length v ≡ n → simple_array_write t n v ≡ puts (simple_array_chunks v)
    unfolding simple_array_write puts put
    simple_array_write_lem v h =
        rw (mod-eq_of_lt fits, ← memory_length v h, take-length) (fun_ext λ s. ground arith)

    simple_array_read_lem :
        (v old : List ℕ) (c : Stream) (rest : List ℕ)
        → (length v ≡ n) × All Value v
        → length old ≡ n
        → drop c.data_ c.mem ≡ flatten (simple_array_chunks v) ++ rest
        → c.data_ + length (flatten (simple_array_chunks v)) ≤ c.end_
        → simple_array_read t n old c ≡ ok v (skipped c (length (flatten (simple_array_chunks v))))
    unfolding simple_array_read
    simple_array_read_lem v old c rest (h, all) o e b =
        rw (append-nil, mod-eq_of_lt fits)
          (ground (
            arith,
            memory_length v h,
            rw append-nil at b,
            load_ahead c (to_memory (sizeof t) v) rest (rw append-nil at e),
            copy_into_lem (sizeof t) old v (o ∙ sym h) all,
          ))

    -- Arrays of arithmetic values, up to 4 GiB.
    pub simple_array-IsCodec :
        IsCodec
          (simple_array t n)
          simple_array_chunks
          (λ v. (length v ≡ n) × All Value v)
          (λ v. length v ≡ n)
    unfolding simple_array_length
    simple_array-IsCodec = record {
      write_lem = λ v h. simple_array_write_lem v h.0;
      serialized_length_lem = λ v h. rw (append-nil, memory_length v h.0);
      read_lem = simple_array_read_lem;
    }

  abbrev pub memory_chunks : List ℕ → List (List ℕ)
  memory_chunks [] = []
  memory_chunks (x ∷ xs) = to_memory (sizeof t) (x ∷ xs) ∷ []

  abbrev pub simple_vector_chunks : List ℕ → List (List ℕ)
  simple_vector_chunks v = length_chunk (length v) ∷ memory_chunks v

  abbrev pub MemoryFits : List ℕ → Type 0
  MemoryFits v = (length v * sizeof t < 2 ^ 32) × All Value v

  flatten-memory_chunks : (v : List ℕ) → flatten (memory_chunks v) ≡ to_memory (sizeof t) v
  unfolding to_memory
  flatten-memory_chunks [] = refl
  flatten-memory_chunks (x ∷ xs) = append-nil _

  pub length-simple_vector_chunks :
      (v : List ℕ) → length (flatten (simple_vector_chunks v)) ≡ 4 + length v * sizeof t
  length-simple_vector_chunks v =
      length-append (length_chunk (length v)) (flatten (memory_chunks v))
      ∙ rw (flatten-memory_chunks v, length-to_bytes, length-to_memory)

  few : (n : ℕ) → n * sizeof t < 2 ^ 32 → n < 2 ^ 32
  unfolding sizeof
  few n h = ground arith

  simple_vector_body :
      (v : List ℕ) (s : Stream)
      → length v * sizeof t < 2 ^ 32
      → let data_len = length v * sizeof t % 2 ^ 32 in
        when
          (is_nonempty v)
          (advance data_len >>= λ p. write_at p (take data_len (to_memory (sizeof t) v)))
          (pure tt)
          s
        ≡ puts (memory_chunks v) s
  unfolding advance write_at puts put
  simple_vector_body [] s h = refl
  simple_vector_body (x ∷ xs) s h =
      rw (mod-eq_of_lt h, ← length-to_memory (sizeof t) (x ∷ xs), take-length) (ground arith)

  simple_vector_write_lem :
      (v : List ℕ) → MemoryFits v → simple_vector_write t v ≡ puts (simple_vector_chunks v)
  unfolding simple_vector_write
  simple_vector_write_lem v (h, all) = rw (mod-eq_of_lt (few (length v) h)) (
      ap (λ (m : Io (Unit {0})). m >> body) (write_length (length v) (few (length v) h))
      ∙ ap (λ (m : Io (Unit {0})). puts (length_chunk (length v) ∷ []) >> m)
          (fun_ext λ s. simple_vector_body v s h)
      ∙ sym (puts-append (length_chunk (length v) ∷ []) (memory_chunks v)))
    where
      body : Io (Unit {0})
      body =
          let data_len = length v * sizeof t % 2 ^ 32 in
          when (is_nonempty v)
            (advance data_len >>= λ p. write_at p (take data_len (to_memory (sizeof t) v)))
            (pure tt)

  simple_vector_read_body :
      (v old : List ℕ) (c : Stream) (rest : List ℕ)
      → MemoryFits v
      → drop c.data_ c.mem ≡ to_memory (sizeof t) v ++ rest
      → c.data_ + length v * sizeof t ≤ c.end_
      → let resized = resize 0 (length v) old in
        let data_len = sizeof t * length v % 2 ^ 32 in
        when
          (ltb 0 (length v))
          (advance data_len >>= λ p.
            read_at p data_len >>= λ bytes. pure (copy_into (sizeof t) resized bytes))
          (pure resized)
          c
        ≡ ok v (skipped c (length v * sizeof t))
  unfolding advance read_at resize
  simple_vector_read_body [] old c rest (h, all) e b = ground arith
  simple_vector_read_body (x ∷ xs) old c rest (h, all) e b =
      rw
        (
          lt→ltb 0 (length (x ∷ xs)) (omega arith),
          mul_comm (sizeof t) (length (x ∷ xs)),
          mod-eq_of_lt h,
        )
        (ground (
          arith,
          length-to_memory (sizeof t) (x ∷ xs),
          load_ahead c (to_memory (sizeof t) (x ∷ xs)) rest e,
          copy_into_lem (sizeof t) (resize 0 (length (x ∷ xs)) old) (x ∷ xs)
              (length-resize 0 (length (x ∷ xs)) old) all,
        ))

  simple_vector_read_lem :
      (v old : List ℕ) (c : Stream) (rest : List ℕ)
      → MemoryFits v
      → drop c.data_ c.mem ≡ flatten (simple_vector_chunks v) ++ rest
      → c.data_ + length (flatten (simple_vector_chunks v)) ≤ c.end_
      → simple_vector_read t old c ≡ ok v (skipped c (length (flatten (simple_vector_chunks v))))
  unfolding simple_vector_read
  simple_vector_read_lem v old c rest (h, all) e b =
      rw
        (
          read_length (length v) 0 c (to_memory (sizeof t) v ++ rest) (few (length v) h) ahead
              (omega (arith, total)),
          ◌>>=◌,
        )
        (simple_vector_read_body v old (skipped c 4) rest (h, all)
            (behind_length (length v) c (to_memory (sizeof t) v ++ rest) ahead)
            (omega (arith, total))
          ∙ ap (ok v) (ground (arith, total)))
    where
      total : length (flatten (simple_vector_chunks v)) ≡ 4 + length v * sizeof t
      total = length-simple_vector_chunks v

      ahead : drop c.data_ c.mem ≡ length_chunk (length v) ++ (to_memory (sizeof t) v ++ rest)
      ahead =
          e
          ∙ append_assoc (length_chunk (length v)) (flatten (memory_chunks v)) rest
          ∙ rw (flatten-memory_chunks v)

  -- Vectors of arithmetic values, up to 4 GiB.
  pub simple_vector-IsCodec : IsCodec (simple_vector t) simple_vector_chunks MemoryFits (λ _. Unit)
  unfolding simple_vector_length
  simple_vector-IsCodec = record {
    write_lem = simple_vector_write_lem;
    serialized_length_lem = λ v h. rw (length-simple_vector_chunks v);
    read_lem = λ v old c rest h _ e b. simple_vector_read_lem v old c rest h e b;
  }
