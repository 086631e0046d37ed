-- ===== src/Serialization/Scalars.antt =====
-- MSGT_CREATE_SIMPLE_SERIALIZER and `Serializer<bool>`. A value of an arithmetic type is its bit
-- pattern, and its object representation is little-endian.
use message_transport.Common.{
  ℕ, zero, suc, ◌+◌, ◌*◌, ◌/◌, ◌%◌, ◌^◌, ◌≤◌, ◌<◌, ◌≡◌, refl, sym, ap, ◌∙◌, fun_ext, Bool, true,
  false, List, [], ◌∷◌, ◌++◌, length, drop, flatten, append-nil, take-length-append, arith, ◌==◌,
  not, if◌then◌else◌,
}
use message_transport.Common.Memory.{load}
use message_transport.Serialization.Stream.{Stream, ok, Io, pure, ◌>>=◌, advance, write_at, read_at}
use message_transport.Serialization.Puts.{put, puts, puts_one}
use message_transport.Serialization.Serializer.{Serializer, IsCodec, skipped}

pub data Scalar : Type 0 where
  uint8 int8 uint16 int16 uint32 int32 uint64 int64 float double : Scalar

unfoldable pub sizeof : Scalar → ℕ
sizeof uint8 = 1
sizeof int8 = 1
sizeof uint16 = 2
sizeof int16 = 2
sizeof uint32 = 4
sizeof int32 = 4
sizeof uint64 = 8
sizeof int64 = 8
sizeof float = 4
sizeof double = 8

unfoldable pub to_bytes : ℕ → ℕ → List ℕ
to_bytes zero v = []
to_bytes (suc k) v = (v % 256) ∷ to_bytes k (v / 256)

unfoldable pub of_bytes : List ℕ → ℕ
of_bytes [] = 0
of_bytes (b ∷ bs) = b + 256 * of_bytes bs

pub length-to_bytes : (k v : ℕ) → length (to_bytes k v) ≡ k
unfolding to_bytes
length-to_bytes zero v = refl
length-to_bytes (suc k) v = ap suc (length-to_bytes k (v / 256))

pub of_bytes-to_bytes : (k v : ℕ) → v < 256 ^ k → of_bytes (to_bytes k v) ≡ v
unfolding to_bytes of_bytes
of_bytes-to_bytes zero v h = omega arith
of_bytes-to_bytes (suc k) v h = omega (arith, of_bytes-to_bytes k (v / 256) (omega arith))

unfoldable pub write_scalar : Scalar → ℕ → Io (Unit {0})
unfolding advance write_at
write_scalar t v = do p ← advance (sizeof t); write_at p (to_bytes (sizeof t) v)

unfoldable pub read_scalar : Scalar → ℕ → Io ℕ
unfolding advance read_at
read_scalar t old = do p ← advance (sizeof t); bytes ← read_at p (sizeof t); pure (of_bytes bytes)

abbrev pub simple : Scalar → Serializer ℕ
simple t = record {
  write = write_scalar t;
  read = read_scalar t;
  serialized_length = λ v. sizeof t;
}

write_scalar_lem : (t : Scalar) (v : ℕ) → write_scalar t v ≡ put (to_bytes (sizeof t) v)
unfolding write_scalar put
write_scalar_lem t v = fun_ext λ s. ground (arith, length-to_bytes (sizeof t) v)

-- Bytes that lie ahead are what `load` returns.
pub load_ahead :
    (c : Stream) (bytes rest : List ℕ)
    → drop c.data_ c.mem ≡ bytes ++ rest
    → load c.mem c.data_ (length bytes) ≡ bytes
unfolding load
load_ahead c bytes rest e = rw e (take-length-append bytes rest)

read_scalar_lem :
    (t : Scalar) (v old : ℕ) (c : Stream) (rest : List ℕ)
    → v < 256 ^ sizeof t
    → drop c.data_ c.mem ≡ to_bytes (sizeof t) v ++ rest
    → c.data_ + sizeof t ≤ c.end_
    → read_scalar t old c ≡ ok v (skipped c (sizeof t))
unfolding read_scalar
read_scalar_lem t v old c rest h e b = ground (
  arith,
  load_ahead c (to_bytes (sizeof t) v) rest e,
  length-to_bytes (sizeof t) v,
  of_bytes-to_bytes (sizeof t) v h,
)

sizeof-lt : (t : Scalar) → sizeof t < 2 ^ 32
unfolding sizeof
sizeof-lt t = ground arith

flatten_one : (bytes : List ℕ) → flatten (bytes ∷ []) ≡ bytes
flatten_one bytes = append-nil bytes

abbrev pub scalar_chunks : Scalar → ℕ → List (List ℕ)
scalar_chunks t v = to_bytes (sizeof t) v ∷ []

-- Every arithmetic type of the macro's list meets the contract.
pub simple-IsCodec :
    (t : Scalar) → IsCodec (simple t) (scalar_chunks t) (λ v. v < 256 ^ sizeof t) (λ _. Unit)
simple-IsCodec t = record {
  write_lem = λ v h. write_scalar_lem t v ∙ sym (puts_one (to_bytes (sizeof t) v));
  serialized_length_lem = λ v h. rw (append-nil, length-to_bytes) (omega (arith, sizeof-lt t));
  read_lem = λ v old c rest h _ e b.
      rw (append-nil, length-to_bytes)
        (read_scalar_lem t v old c rest h (rw append-nil at e)
          (rw (append-nil, length-to_bytes) at b));
}

-- `Serializer<bool>`: one byte, and any byte but 0 reads as true.
unfoldable pub write_bool : Bool → Io (Unit {0})
unfolding advance write_at
write_bool v = do p ← advance 1; write_at p ((if v then 1 else 0) ∷ [])

unfoldable pub read_bool : Bool → Io Bool
unfolding advance read_at of_bytes
read_bool old = do p ← advance 1; bytes ← read_at p 1; pure (not (of_bytes bytes == 0))

abbrev pub boolean : Serializer Bool
boolean = record { write = write_bool; read = read_bool; serialized_length = λ v. 1 }

abbrev pub bool_byte : Bool → List ℕ
bool_byte v = (if v then 1 else 0) ∷ []

abbrev pub bool_chunks : Bool → List (List ℕ)
bool_chunks v = bool_byte v ∷ []

write_bool_lem : (v : Bool) → write_bool v ≡ puts (bool_byte v ∷ [])
unfolding write_bool put puts
write_bool_lem v = fun_ext λ s. ground arith

read_bool_lem :
    (v old : Bool) (c : Stream) (rest : List ℕ)
    → drop c.data_ c.mem ≡ bool_byte v ++ rest
    → c.data_ + 1 ≤ c.end_
    → read_bool old c ≡ ok v (skipped c 1)
unfolding read_bool
read_bool_lem true old c rest e b = ground (arith, load_ahead c (1 ∷ []) rest e)
read_bool_lem false old c rest e b = ground (arith, load_ahead c (0 ∷ []) rest e)

pub boolean-IsCodec : IsCodec boolean bool_chunks (λ _. Unit) (λ _. Unit)
boolean-IsCodec = record {
  write_lem = λ v _. write_bool_lem v;
  serialized_length_lem = λ v _. refl;
  read_lem = λ v old c rest _ _ e b. read_bool_lem v old c rest e b;
}
