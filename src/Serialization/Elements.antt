-- ===== src/Serialization/Elements.antt =====
-- The loops `for (; it!=end; ++it)` that the vector and array serializers share.
use message_transport.Common.{
  ℕ, ◌+◌, ◌%◌, ◌^◌, ◌≤◌, ◌<◌, ◌≡◌, refl, sym, ap, ◌∙◌, List, [], ◌∷◌, ◌++◌, length, drop, flatten,
  length-append, append_assoc, drop-drop, drop-length-append, flatten-append, All, arith,
}
use message_transport.Serialization.Stream.{Stream, ok, Io, pure, ◌>>=◌, ◌>>◌}
use message_transport.Serialization.Puts.{puts, puts-append}
use message_transport.Serialization.Serializer.{Serializer, IsCodec, skipped}

module _ {ℓ} {T : Type ℓ} (S : Serializer T) where
  unfoldable pub write_each : List T → Io (Unit {0})
  write_each [] = pure tt
  write_each (x ∷ xs) = S.write x >> write_each xs

  -- Each element is overwritten in turn.
  unfoldable pub read_each : List T → Io (List T)
  read_each [] = pure []
  read_each (x ∷ xs) = S.read x >>= λ y. read_each xs >>= λ ys. pure (y ∷ ys)

  -- `size += serializationLength(*it)` in uint32_t.
  unfoldable pub add_lengths : ℕ → List T → ℕ
  add_lengths size [] = size
  add_lengths size (x ∷ xs) = add_lengths ((size + S.serialized_length x) % 2 ^ 32) xs

-- Moving past `m` bytes of what lies ahead.
pub drop_ahead :
    (c : Stream) (a rest : List ℕ)
    → drop c.data_ c.mem ≡ a ++ rest
    → drop (c.data_ + length a) c.mem ≡ rest
drop_ahead c a rest e =
    sym (drop-drop c.data_ (length a) c.mem) ∙ ap (drop (length a)) e ∙ drop-length-append a rest

module _ {ℓ} {T : Type ℓ} (chunks : T → List (List ℕ)) where
  abbrev pub chunks_each : List T → List (List ℕ)
  chunks_each [] = []
  chunks_each (x ∷ xs) = chunks x ++ chunks_each xs

module _ {ℓ} {T : Type ℓ} (S : Serializer T) (chunks : T → List (List ℕ)) (Fits Target : T → Type 0)
    (codec : IsCodec S chunks Fits Target) where
  pub write_each_lem : (vs : List T) → All Fits vs → write_each S vs ≡ puts (chunks_each chunks vs)
  unfolding write_each puts
  write_each_lem [] h = refl
  write_each_lem (v ∷ vs) h =
      ap (λ (m : Io (Unit {0})). m >> write_each S vs) (codec.write_lem v h.0)
      ∙ ap (λ (m : Io (Unit {0})). puts (chunks v) >> m) (write_each_lem vs h.1)
      ∙ sym (puts-append (chunks v) (chunks_each chunks vs))

  pub length-chunks_each :
      (v : T) (vs : List T)
      → length (flatten (chunks_each chunks (v ∷ vs)))
        ≡ length (flatten (chunks v)) + length (flatten (chunks_each chunks vs))
  length-chunks_each v vs =
      ap length (flatten-append (chunks v) (chunks_each chunks vs))
      ∙ length-append (flatten (chunks v)) (flatten (chunks_each chunks vs))

  pub add_lengths_lem :
      (vs : List T) (size : ℕ)
      → All Fits vs
      → add_lengths S size vs % 2 ^ 32 ≡ (size + length (flatten (chunks_each chunks vs))) % 2 ^ 32
  unfolding add_lengths
  add_lengths_lem [] size h = omega arith
  add_lengths_lem (v ∷ vs) size h = omega (
    arith,
    add_lengths_lem vs ((size + S.serialized_length v) % 2 ^ 32) h.1,
    length-chunks_each v vs,
    codec.serialized_length_lem v h.0,
  )

  pub add_lengths-lt : (vs : List T) (size : ℕ) → size < 2 ^ 32 → add_lengths S size vs < 2 ^ 32
  unfolding add_lengths
  add_lengths-lt [] size h = h
  add_lengths-lt (v ∷ vs) size h = add_lengths-lt vs _ (omega arith)

  pub read_each_lem :
      (vs olds : List T) (c : Stream) (rest : List ℕ)
      → length olds ≡ length vs
      → All Fits vs
      → All Target olds
      → drop c.data_ c.mem ≡ flatten (chunks_each chunks vs) ++ rest
      → c.data_ + length (flatten (chunks_each chunks vs)) ≤ c.end_
      → read_each S olds c ≡ ok vs (skipped c (length (flatten (chunks_each chunks vs))))
  unfolding read_each
  read_each_lem [] [] c rest l h t e b = ground arith
  read_each_lem [] (o ∷ olds) c rest l h t e b = absurd (omega arith)
  read_each_lem (v ∷ vs) [] c rest l h t e b = absurd (omega arith)
  read_each_lem (v ∷ vs) (o ∷ olds) c rest l h t e b =
      rw
        (
          codec.read_lem v o c (flatten (chunks_each chunks vs) ++ rest) h.0 t.0 ahead
              (omega (arith, total)),
          ◌>>=◌,
        )
        (rw
          (
            read_each_lem vs olds (skipped c (length (flatten (chunks v)))) rest (omega arith) h.1
                t.1
                (drop_ahead c (flatten (chunks v)) (flatten (chunks_each chunks vs) ++ rest) ahead)
                (omega (arith, total)),
            ◌>>=◌,
          )
          (ap (ok (v ∷ vs)) (ground (arith, total))))
    where
      total :
          length (flatten (chunks_each chunks (v ∷ vs)))
          ≡ length (flatten (chunks v)) + length (flatten (chunks_each chunks vs))
      total = length-chunks_each v vs

      ahead : drop c.data_ c.mem ≡ flatten (chunks v) ++ (flatten (chunks_each chunks vs) ++ rest)
      ahead =
          e
          ∙ ap (λ (bytes : List ℕ). bytes ++ rest)
              (flatten-append (chunks v) (chunks_each chunks vs))
          ∙ append_assoc (flatten (chunks v)) (flatten (chunks_each chunks vs)) rest
