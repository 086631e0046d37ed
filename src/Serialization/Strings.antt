-- ===== src/Serialization/Strings.antt =====
-- `Serializer<std::basic_string<…>>`: a length in uint32_t, then the characters.
use message_transport.Common.{
  ℕ, ◌+◌, ◌%◌, ◌^◌, ◌≤◌, ◌<◌, ◌≡◌, refl, sym, ap, ◌∙◌, fun_ext, Bool, true, false, List, [], ◌∷◌,
  ◌++◌, length, drop, flatten, length-append, append-nil, append_assoc, drop-drop, arith, ltb,
  lt→ltb,
}
use native.Mathlib.Nat.{mod-eq_of_lt}
use message_transport.Serialization.Stream.{
  Stream, ok, Io, pure, ◌>>=◌, ◌>>◌, advance, write_at, read_at,
}
use message_transport.Serialization.Puts.{put, puts, puts-append}
use message_transport.Serialization.Serializer.{Serializer, IsCodec, skipped}
use message_transport.Serialization.Scalars.{
  uint32, sizeof, simple, simple-IsCodec, to_bytes, length-to_bytes, load_ahead,
}

-- `if (len>0) …`
abbrev pub when {ℓ} : {A : Type ℓ} → Bool → Io A → Io A → Io A
when true body otherwise = body
when false body otherwise = otherwise

-- `size_t len` counts all characters; only its last 32 bits are announced and advanced over.
pub write_string : List ℕ → Io (Unit {0})
unfolding advance write_at
write_string str = do
  let len = length str
  (simple uint32).write (len % 2 ^ 32)
  when (ltb 0 len) (advance (len % 2 ^ 32) >>= λ p. write_at p str) (pure tt)

pub read_string : List ℕ → Io (List ℕ)
unfolding advance read_at
read_string old = do
  len ← (simple uint32).read 0
  when (ltb 0 len) (advance len >>= λ p. read_at p len) (pure [])

pub string_length : List ℕ → ℕ
string_length str = (4 + length str % 2 ^ 32) % 2 ^ 32

abbrev pub string : Serializer (List ℕ)
string = record { write = write_string; read = read_string; serialized_length = string_length }

-- The length in front of a string or a vector, as both write and read it.
abbrev pub length_chunk : ℕ → List ℕ
length_chunk n = to_bytes 4 n

pub write_length : (n : ℕ) → n < 2 ^ 32 → (simple uint32).write n ≡ puts (length_chunk n ∷ [])
unfolding sizeof
write_length n h = (simple-IsCodec uint32).write_lem n (omega arith)

pub read_length :
    (n old : ℕ) (c : Stream) (rest : List ℕ)
    → n < 2 ^ 32
    → drop c.data_ c.mem ≡ length_chunk n ++ rest
    → c.data_ + 4 ≤ c.end_
    → (simple uint32).read old c ≡ ok n (skipped c 4)
unfolding sizeof to_bytes
read_length n old c rest h e b = (simple-IsCodec uint32).read_lem n old c rest (omega arith) tt e b

-- What lies behind the length.
pub behind_length :
    (n : ℕ) (c : Stream) (rest : List ℕ)
    → drop c.data_ c.mem ≡ length_chunk n ++ rest
    → drop (c.data_ + 4) c.mem ≡ rest
unfolding to_bytes
behind_length n c rest e = sym (drop-drop c.data_ 4 c.mem) ∙ ap (drop 4) e

abbrev pub body_chunks : List ℕ → List (List ℕ)
body_chunks [] = []
body_chunks (b ∷ bs) = (b ∷ bs) ∷ []

abbrev pub string_chunks : List ℕ → List (List ℕ)
string_chunks str = length_chunk (length str) ∷ body_chunks str

pub flatten-body_chunks : (str : List ℕ) → flatten (body_chunks str) ≡ str
flatten-body_chunks [] = refl
flatten-body_chunks (b ∷ bs) = append-nil (b ∷ bs)

write_body :
    (str : List ℕ) (s : Stream)
    → length str < 2 ^ 32
    → when (ltb 0 (length str)) (advance (length str % 2 ^ 32) >>= λ p. write_at p str) (pure tt) s
      ≡ puts (body_chunks str) s
unfolding advance write_at puts put
write_body [] s h = refl
write_body (b ∷ bs) s h =
    rw (lt→ltb 0 (length (b ∷ bs)) (omega arith), mod-eq_of_lt h) (ground arith)

write_string_lem :
    (str : List ℕ) → length str < 2 ^ 32 → write_string str ≡ puts (string_chunks str)
unfolding write_string
write_string_lem str h =
    ap (λ (m : Io (Unit {0})). m >> body) (rw (mod-eq_of_lt h) (write_length (length str) h))
    ∙ ap (λ (m : Io (Unit {0})). puts (length_chunk (length str) ∷ []) >> m)
        (fun_ext λ s. write_body str s h)
    ∙ sym (puts-append (length_chunk (length str) ∷ []) (body_chunks str))
  where
    body : Io (Unit {0})
    body =
        when (ltb 0 (length str)) (advance (length str % 2 ^ 32) >>= λ p. write_at p str) (pure tt)

pub length-string_chunks : (str : List ℕ) → length (flatten (string_chunks str)) ≡ 4 + length str
length-string_chunks str =
    length-append (length_chunk (length str)) (flatten (body_chunks str))
    ∙ rw (flatten-body_chunks str, length-to_bytes)

read_body :
    (str : List ℕ) (c : Stream) (rest : List ℕ)
    → drop c.data_ c.mem ≡ str ++ rest
    → c.data_ + length str ≤ c.end_
    → when (ltb 0 (length str)) (advance (length str) >>= λ p. read_at p (length str)) (pure []) c
      ≡ ok str (skipped c (length str))
unfolding advance read_at
read_body [] c rest e b = ground arith
read_body (x ∷ str) c rest e b =
    rw (lt→ltb 0 (length (x ∷ str)) (omega arith)) (ground (arith, load_ahead c (x ∷ str) rest e))

read_string_lem :
    (str old : List ℕ) (c : Stream) (rest : List ℕ)
    → length str < 2 ^ 32
    → drop c.data_ c.mem ≡ flatten (string_chunks str) ++ rest
    → c.data_ + length (flatten (string_chunks str)) ≤ c.end_
    → read_string old c ≡ ok str (skipped c (length (flatten (string_chunks str))))
unfolding read_string
read_string_lem str old c rest h e b =
    rw (read_length (length str) 0 c (str ++ rest) h ahead (omega (arith, total)), ◌>>=◌)
      (read_body str (skipped c 4) rest (behind_length (length str) c (str ++ rest) ahead)
          (omega (arith, total))
        ∙ ap (ok str) (ground (arith, total)))
  where
    total : length (flatten (string_chunks str)) ≡ 4 + length str
    total = length-string_chunks str

    ahead : drop c.data_ c.mem ≡ length_chunk (length str) ++ (str ++ rest)
    ahead = e ∙ rw (flatten-body_chunks str) (append_assoc (length_chunk (length str)) str rest)

-- A string of less than 4 GiB meets the contract.
pub string-IsCodec : IsCodec string string_chunks (λ str. length str < 2 ^ 32) (λ _. Unit)
unfolding string_length
string-IsCodec = record {
  write_lem = write_string_lem;
  serialized_length_lem = λ str h. rw (length-string_chunks str) (omega arith);
  read_lem = λ str old c rest h _ e b. read_string_lem str old c rest h e b;
}
