-- ===== src/Sharedmem/Descriptor.antt =====
-- `SharedMemoryBlockDescriptor`: the entry of one block in the manager's table.
use message_transport.Common.{
  ℕ, ◌+◌, ◌-◌, ◌%◌, ◌^◌, ◌≡◌, ◌↔◌, Bool, true, false, Option, none, some, List, ltb, ◌==◌,
  if◌then◌else◌,
}
use message_transport.Sharedmem.Names.{
  Chars, name_size, strncmp_eq, c_string, copy_chars, strncmp_eq→c_string, c_string→strncmp_eq,
  c_string-copy_chars,
}

pub record Descriptor : Type 0 where
  pub num_clients : ℕ
  pub size_ : ℕ
  pub allocated_ : ℕ
  pub resize_count_ : ℕ
  pub active_ : Bool
  pub name_ : Chars

abbrev pub terminated : Chars → Chars
terminated name i = if i == 0 then 0 else name i

-- The constructor; `garbage` is what the memory of `name_` held.
unfoldable pub new_descriptor : Chars → Descriptor
new_descriptor garbage = record {
  num_clients = 0;
  size_ = 0;
  allocated_ = 0;
  resize_count_ = 0;
  active_ = false;
  name_ = terminated garbage;
}

unfoldable pub get_size : Descriptor → ℕ
get_size d = d.size_

unfoldable pub record_size : ℕ → ℕ → Descriptor → Descriptor
record_size newsize alloc d = record d {
  resize_count_ =
      if ltb d.allocated_ newsize then (d.resize_count_ + 1) % 2 ^ 32 else d.resize_count_;
  allocated_ = if alloc == 0 then d.allocated_ else alloc;
  size_ = newsize;
}

unfoldable pub allocate : Chars → Descriptor → Descriptor
allocate name d = record d { name_ = copy_chars name_size name d.name_; active_ = true }

unfoldable pub reset : Descriptor → Descriptor
reset d = record d {
  active_ = false;
  name_ = terminated d.name_;
  size_ = 0;
  allocated_ = 0;
  resize_count_ = 0;
}

unfoldable pub match_name : Chars → Descriptor → Bool
match_name name d = strncmp_eq name_size 0 d.name_ name

unfoldable pub register_client : Descriptor → Descriptor
register_client d = record d { num_clients = d.num_clients + 1 }

-- `none` is the failed assertion `num_clients >= 0`.
unfoldable pub unregister_client : Descriptor → Option Descriptor
unregister_client d =
    if d.num_clients == 0 then none else some (record d { num_clients = d.num_clients - 1 })

-- The name under which the segment knows the block.
abbrev pub name_of : Chars → List ℕ
name_of name = c_string name_size 0 name

abbrev pub key : Descriptor → List ℕ
key d = name_of d.name_

-- `matchName` answers exactly whether the two names read the same within 256 characters.
pub match_name_iff :
    (name : Chars) (d : Descriptor) → (match_name name d ≡ true) ↔ (key d ≡ name_of name)
unfolding match_name
match_name_iff name d =
    (strncmp_eq→c_string name_size 0 d.name_ name, c_string→strncmp_eq name_size 0 d.name_ name)

-- A descriptor that was allocated for a name matches it.
pub key-allocate : (name : Chars) (d : Descriptor) → key (allocate name d) ≡ name_of name
unfolding allocate
key-allocate name d = c_string-copy_chars name d.name_
