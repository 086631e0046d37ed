-- ===== src/Sharedmem/Block/Counts.antt =====
-- What `recordSize` and `reset` do to the counts and the name of an entry.
use message_transport.Common.{ℕ, ◌+◌, ◌%◌, ◌^◌, ◌≤◌, ◌<◌, ◌≡◌, ◌≢◌, refl, false, lt→ltb, arith}
use message_transport.Sharedmem.Descriptor.{Descriptor, key, record_size, reset}

pub record_size-count :
    (size : ℕ) (d : Descriptor)
    → size ≤ d.allocated_
    → (record_size size 0 d).resize_count_ ≡ d.resize_count_
unfolding record_size
record_size-count size d h = ground arith

pub record_size-clients :
    (size alloc : ℕ) (d : Descriptor) → (record_size size alloc d).num_clients ≡ d.num_clients
unfolding record_size
record_size-clients size alloc d = refl

pub record_size-key : (size alloc : ℕ) (d : Descriptor) → key (record_size size alloc d) ≡ key d
unfolding record_size
record_size-key size alloc d = refl

pub record_size-moves :
    (size alloc : ℕ) (d : Descriptor)
    → d.allocated_ < size
    → (record_size size alloc d).resize_count_ ≢ d.resize_count_
unfolding record_size
record_size-moves size alloc d h e =
    let next : (d.resize_count_ + 1) % 2 ^ 32 ≡ d.resize_count_ =
      rw (lt→ltb d.allocated_ size h) at e in
    omega arith

pub reset-clients : (d : Descriptor) → (reset d).num_clients ≡ d.num_clients
unfolding reset
reset-clients d = refl

pub reset_facts : (d : Descriptor) → ((reset d).active_ ≡ false) × ((reset d).allocated_ ≡ 0)
unfolding reset
reset_facts d = (refl, refl)
