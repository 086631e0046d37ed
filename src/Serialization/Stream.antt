-- ===== src/Serialization/Stream.antt =====
-- `Stream`, `IStream` and `OStream` of serialization.h: a cursor into a block of memory.
use message_transport.Common.{ℕ, ◌+◌, ◌-◌, ◌%◌, ◌^◌, List, ltb, true, false}
use message_transport.Common.Memory.{store, load}

-- `data_` and `end_` are offsets into the block `mem` that the two pointers point into.
pub record Stream : Type 0 where
  pub mem : List ℕ
  pub data_ : ℕ
  pub end_ : ℕ

-- A call returns, or throws StreamOverrunException. The memory outlives the exception.
pub data Outcome {ℓ} (A : Type ℓ) : Type ℓ where
  ok : A → Stream → Outcome A
  overrun : Stream → Outcome A

abbrev pub Io {ℓ} : Type ℓ → Type ℓ
Io A = Stream → Outcome A

abbrev pub pure {ℓ} : {A : Type ℓ} → A → Io A
pure a s = ok a s

infixl 5 ◌>>=◌ ◌>>◌
abbrev pub ◌>>=◌ {ℓ κ} : {A : Type ℓ} {B : Type κ} → Io A → (A → Io B) → Io B
◌>>=◌ m f s = elim (m s) [ ok a s' ↦ f a s' | overrun s' ↦ overrun s' ]

abbrev pub ◌>>◌ {ℓ} : {B : Type ℓ} → Io (Unit {0}) → Io B → Io B
m >> k = m >>= λ _. k

-- The constructors of IStream and OStream, over `count` bytes from offset `start`.
unfoldable pub open_stream : List ℕ → ℕ → ℕ → Stream
open_stream mem start count = record { mem = mem; data_ = start; end_ = start + count }

-- The cursor moves before the bound is tested.
unfoldable pub advance : ℕ → Io ℕ
advance len s =
    let s' = record s { data_ = s.data_ + len } in
    elim (ltb s.end_ s'.data_) [ true ↦ overrun s' | false ↦ ok s.data_ s' ]

unfoldable pub get_length : Io ℕ
get_length s = ok ((s.end_ - s.data_) % 2 ^ 32) s

-- `memcpy(p, bytes, …)` and `memcpy(…, p, n)` at a pointer that `advance` returned.
unfoldable pub write_at : ℕ → List ℕ → Io (Unit {0})
write_at p bytes s = ok tt (record s { mem = store s.mem p bytes })

unfoldable pub read_at : ℕ → ℕ → Io (List ℕ)
read_at p n s = ok (load s.mem p n) s
