-- ===== src/Serialization/RoundTrip.antt =====
-- Each kind of value comes back from a stream of exactly the announced length; what does not fit
-- ends in StreamOverrunException; values of two types follow one another.
use message_transport.Common.{
  ℕ, ◌+◌, ◌*◌, ◌^◌, ◌≤◌, ◌<◌, ◌≡◌, ap, ◌∙◌, List, [], ◌∷◌, length, flatten, append-nil, All, arith,
}
use message_transport.Serialization.Stream.{Stream, Io, pure, ◌>>=◌}
use message_transport.Serialization.Serializer.{Serializer, IsCodec}
use message_transport.Serialization.Scalars.{
  Scalar, sizeof, simple, simple-IsCodec, length-to_bytes,
}
use message_transport.Serialization.Strings.{string, string-IsCodec, length-string_chunks}
use message_transport.Serialization.Elements.{chunks_each}
use message_transport.Serialization.Vectors.{vector, fixed_vector, simple_vector}
use message_transport.Serialization.Arrays.{array, fixed_array, simple_array}
use message_transport.Serialization.VectorCodecs.{
  vector_chunks, vector-IsCodec, fixed_vector-IsCodec, array-IsCodec, fixed_array-IsCodec,
  length-fixed_chunks, length-vector_chunks,
}
use message_transport.Serialization.MemoryCodecs.{
  simple_array-IsCodec, simple_vector-IsCodec, length-simple_vector_chunks, memory_length,
}
use message_transport.Serialization.Interface.{
  RoundTrips, Overruns, next_in, codec-RoundTrips, codec-Overruns,
}

sizeof_small : (t : Scalar) → sizeof t < 2 ^ 32
unfolding sizeof
sizeof_small t = ground arith

-- A value of an arithmetic type, given by a bit pattern that fits it, comes back from the `sizeof`
-- bytes that it was written to, anywhere in a memory that has room for them, whatever the target
-- held, and nothing outside those bytes changes.
pub scalar_round_trip :
    (t : Scalar) (v old : ℕ) (mem : List ℕ) (start : ℕ)
    → v < 256 ^ sizeof t
    → start + sizeof t ≤ length mem
    → RoundTrips (simple t) v old mem start
scalar_round_trip t v old mem start h room =
    codec-RoundTrips (simple t) _ _ _ (simple-IsCodec t) v old mem start h tt
      (rw (append-nil, length-to_bytes) (sizeof_small t)) (rw (append-nil, length-to_bytes) room)

-- A string that with its 4 bytes of length stays below 2^32 comes back from exactly the announced
-- number of bytes, anywhere in a memory that has room for them, whatever the target held, and
-- nothing outside those bytes changes.
pub string_round_trip :
    (str old mem : List ℕ) (start : ℕ)
    → 4 + length str < 2 ^ 32
    → start + (4 + length str) ≤ length mem
    → RoundTrips string str old mem start
string_round_trip str old mem start h room =
    codec-RoundTrips string _ _ _ string-IsCodec str old mem start (omega arith) tt
      (rw (length-string_chunks str) h) (rw (length-string_chunks str) room)

-- A vector of arithmetic values that fit their type, copied as memory behind its length, comes
-- back from exactly the announced number of bytes, if that is below 2^32 and the memory has room,
-- into a vector of any length; nothing outside those bytes changes.
pub simple_vector_round_trip :
    (t : Scalar) (v old mem : List ℕ) (start : ℕ)
    → All (λ x. x < 256 ^ sizeof t) v
    → 4 + length v * sizeof t < 2 ^ 32
    → start + (4 + length v * sizeof t) ≤ length mem
    → RoundTrips (simple_vector t) v old mem start
simple_vector_round_trip t v old mem start all h room =
    codec-RoundTrips (simple_vector t) _ _ _ (simple_vector-IsCodec t) v old mem start
      (omega arith, all) tt (rw (length-simple_vector_chunks t v) h)
      (rw (length-simple_vector_chunks t v) room)

-- An array of `n` arithmetic values that fit their type, copied as memory, comes back from exactly
-- the announced number of bytes into an array of `n`, if that number is below 2^32 and the memory
-- has room; nothing outside those bytes changes.
pub simple_array_round_trip :
    (t : Scalar) (n : ℕ) (v old mem : List ℕ) (start : ℕ)
    → length v ≡ n
    → length old ≡ n
    → All (λ x. x < 256 ^ sizeof t) v
    → n * sizeof t < 2 ^ 32
    → start + n * sizeof t ≤ length mem
    → RoundTrips (simple_array t n) v old mem start
simple_array_round_trip t n v old mem start l o all h room =
    codec-RoundTrips (simple_array t n) _ _ _ (simple_array-IsCodec t n h) v old mem start (l, all)
      o (rw (append-nil, memory_length t n h v l) h) (rw (append-nil, memory_length t n h v l) room)

module _ {ℓ} {T : Type ℓ} (S : Serializer T) (chunks : T → List (List ℕ)) (Fits Target : T → Type 0)
    (codec : IsCodec S chunks Fits Target) where
  -- For a serializer that meets the contract, a vector of less than 2^32 elements that fit comes
  -- back element by element from exactly the announced number of bytes, if that is below 2^32 and
  -- the memory has room, into a vector of any length whose elements, like the new ones, can be
  -- read into; nothing outside those bytes changes.
  pub vector_round_trip :
      (blank : T) (v old : List T) (mem : List ℕ) (start : ℕ)
      → Target blank
      → length v < 2 ^ 32
      → All Fits v
      → All Target old
      → 4 + length (flatten (chunks_each chunks v)) < 2 ^ 32
      → start + (4 + length (flatten (chunks_each chunks v))) ≤ length mem
      → RoundTrips (vector S blank) v old mem start
  vector_round_trip blank v old mem start tb l all targets h room =
      codec-RoundTrips (vector S blank) _ _ _ (vector-IsCodec S chunks Fits Target codec blank tb) v
        old mem start (l, all) targets (rw (length-vector_chunks S chunks Fits Target codec v) h)
        (rw (length-vector_chunks S chunks Fits Target codec v) room)

  -- For a serializer that meets the contract, an array of `n` elements that fit comes back element
  -- by element from exactly the announced number of bytes, if that is below 2^32 and the memory
  -- has room, into an array of `n` elements that can be read into; nothing outside those bytes
  -- changes.
  pub array_round_trip :
      (n : ℕ) (v old : List T) (mem : List ℕ) (start : ℕ)
      → length v ≡ n
      → length old ≡ n
      → All Fits v
      → All Target old
      → length (flatten (chunks_each chunks v)) < 2 ^ 32
      → start + length (flatten (chunks_each chunks v)) ≤ length mem
      → RoundTrips (array S n) v old mem start
  array_round_trip n v old mem start l o all targets h room =
      codec-RoundTrips (array S n) _ _ _ (array-IsCodec S chunks Fits Target codec n) v old mem
        start (l, all) (o, targets) h room

  -- For a serializer that meets the contract and takes `k` bytes for every element that fits, the
  -- vector that announces the length of its first element times their number announces the right
  -- length, and comes back from it, if that is below 2^32 and the memory has room, into a vector
  -- of any length whose elements, like the new ones, can be read into.
  pub fixed_vector_round_trip :
      (k : ℕ) (blank : T) (v old : List T) (mem : List ℕ) (start : ℕ)
      → ((x : T) → Fits x → length (flatten (chunks x)) ≡ k)
      → k < 2 ^ 32
      → Target blank
      → length v < 2 ^ 32
      → All Fits v
      → All Target old
      → 4 + length v * k < 2 ^ 32
      → start + (4 + length v * k) ≤ length mem
      → RoundTrips (fixed_vector S blank) v old mem start
  fixed_vector_round_trip k blank v old mem start same kf tb l all targets h room =
      codec-RoundTrips (fixed_vector S blank) _ _ _
        (fixed_vector-IsCodec S chunks Fits Target codec blank tb k kf same) v old mem start
        (l, all) targets (rw total h) (rw total room)
    where
      total : length (flatten (vector_chunks S chunks Fits Target codec v)) ≡ 4 + length v * k
      total =
          length-vector_chunks S chunks Fits Target codec v
          ∙ rw (length-fixed_chunks S chunks Fits Target codec blank tb k kf same v all)

  -- For a serializer that meets the contract and takes `k` bytes for every element that fits, an
  -- array of `n` elements, at least one, that announces the length of its first element times `n`
  -- comes back from that many bytes, if that is below 2^32 and the memory has room, into an array
  -- of `n` elements that can be read into.
  pub fixed_array_round_trip :
      (k n : ℕ) (v old : List T) (mem : List ℕ) (start : ℕ)
      → ((x : T) → Fits x → length (flatten (chunks x)) ≡ k)
      → k < 2 ^ 32
      → 0 < n
      → length v ≡ n
      → length old ≡ n
      → All Fits v
      → All Target old
      → n * k < 2 ^ 32
      → start + n * k ≤ length mem
      → RoundTrips (fixed_array S n) v old mem start
  fixed_array_round_trip k n v [] mem start same kf some_element l o all targets h room =
      absurd (omega arith)
  fixed_array_round_trip k n v (x ∷ xs) mem start same kf some_element l o all targets h room =
      codec-RoundTrips (fixed_array S n) _ _ _
        (fixed_array-IsCodec S chunks Fits Target codec n k kf same some_element x targets.0) v
        (x ∷ xs) mem start (l, all) (o, targets) (rw total h) (rw total room)
    where
      total : length (flatten (chunks_each chunks v)) ≡ n * k
      total =
          length-fixed_chunks S chunks Fits Target codec x targets.0 k kf same v all
          ∙ ap (λ (m : ℕ). m * k) l

  -- For a serializer that meets the contract, a value that fits but needs more bytes than the
  -- stream has left ends in the exception, and no byte outside the stream is touched on the way.
  pub serialize-Overruns :
      (v : T) (s : Stream)
      → Fits v
      → s.data_ ≤ s.end_
      → s.end_ < s.data_ + length (flatten (chunks v))
      → Overruns S v s
  serialize-Overruns v s h b over = codec-Overruns S chunks Fits Target codec v s h b over

-- `in >> a >> b`
abbrev pub pair_in {ℓ κ} :
    {A : Type ℓ} {B : Type κ} → Serializer A → Serializer B → A → B → Io (A × B)
pair_in {A} {B} S R old_a old_b =
    let both : A → B → Io (A × B) = λ a b. pure (a, b) in
    next_in S old_a >>= λ a. next_in R old_b >>= both a
