-- ===== src/Sharedmem/Names.antt =====
-- Names as C strings: `strncmp`, `memcpy` into `name_[256]`, and the string up to its terminator.
use message_transport.Common.{
  ℕ, zero, suc, ◌+◌, ◌<◌, ◌≡◌, refl, Bool, true, false, List, [], ◌∷◌, ltb, ◌==◌, ==_iff,
  if◌then◌else◌, arith,
}

-- The bytes from a pointer on.
abbrev pub Chars : Type 0
Chars = ℕ → ℕ

abbrev pub name_size : ℕ
name_size = 256

-- `strncmp(a, b, n) == 0` on the bytes from index `i` on.
unfoldable pub strncmp_eq : ℕ → ℕ → Chars → Chars → Bool
strncmp_eq zero i a b = true
strncmp_eq (suc n) i a b =
    let rest = strncmp_eq n (suc i) a b in
    if a i == b i then (if a i == 0 then true else rest) else false

-- The characters in front of the terminator, `n` at most. As the key of an object of the segment, the
-- field `name_` is read here up to its 256 bytes; the source passes it without a length, so the model is
-- that of topics of at most 255 characters, whose copy in `name_` has its terminator.
unfoldable pub c_string : ℕ → ℕ → Chars → List ℕ
c_string zero i a = []
c_string (suc n) i a = let rest = c_string n (suc i) a in if a i == 0 then [] else a i ∷ rest

-- `memcpy(to, from, n)`
unfoldable pub copy_chars : ℕ → Chars → Chars → Chars
copy_chars n from to i = if ltb i n then from i else to i

pub strncmp_eq→c_string :
    (n i : ℕ) (a b : Chars) → strncmp_eq n i a b ≡ true → c_string n i a ≡ c_string n i b
unfolding strncmp_eq c_string
strncmp_eq→c_string zero i a b e = refl
strncmp_eq→c_string (suc n) i a b e =
    ground (arith, ==_iff (a i) (b i), strncmp_eq→c_string n (suc i) a b)

pub c_string→strncmp_eq :
    (n i : ℕ) (a b : Chars) → c_string n i a ≡ c_string n i b → strncmp_eq n i a b ≡ true
unfolding strncmp_eq c_string
c_string→strncmp_eq zero i a b e = refl
c_string→strncmp_eq (suc n) i a b e =
    ground (arith, ==_iff (a i) (b i), c_string→strncmp_eq n (suc i) a b)

c_string-copy_from :
    (n i limit : ℕ) (from to : Chars)
    → i + n < suc limit
    → c_string n i (copy_chars limit from to) ≡ c_string n i from
unfolding c_string copy_chars
c_string-copy_from zero i limit from to h = refl
c_string-copy_from (suc n) i limit from to h =
    ground (arith, c_string-copy_from n (suc i) limit from to (omega arith))

-- A copied name reads as the name that it was copied from.
pub c_string-copy_chars :
    (from to : Chars)
    → c_string name_size 0 (copy_chars name_size from to) ≡ c_string name_size 0 from
c_string-copy_chars from to = c_string-copy_from name_size 0 name_size from to (omega arith)
