-- ===== src/Sharedmem/Block/State.antt =====
-- The state of `SharedMemoryBlock`, handles, and the counters of clients.
use message_transport.Common.{
  ℕ, zero, suc, ◌+◌, ◌-◌, ◌^◌, ◌≡◌, refl, Bool, not, Option, none, some, ◌==◌, if◌then◌else◌,
}
use message_transport.Sharedmem.Segment.{Segment, Found}
use message_transport.Sharedmem.Descriptor.{Descriptor, key}

-- MSGTSharedMemoryNumBlock
abbrev pub num_block : ℕ
num_block = 100

-- `shm_handle`; the null pointer is 0.
pub record ShmHandle : Type 0 where
  pub handle : ℕ
  pub ptr : ℕ
  pub resize_count : ℕ

-- `shm_handle()`: the handle is -1 in uint32_t.
abbrev pub no_handle : ShmHandle
no_handle = record { handle = 2 ^ 32 - 1; ptr = 0; resize_count = 0 }

unfoldable pub is_valid : ShmHandle → Bool
is_valid shm = not (shm.ptr == 0)

-- How a call ends, in a state of type `S`: it returns, it throws bad_alloc or the overrun of a
-- stream, an assertion fails, it reads past the table of descriptors, or it throws what is caught
-- nowhere.
pub data Outcome (S A : Type 0) : Type 0 where
  ok : A → S → Outcome S A
  bad_alloc : S → Outcome S A
  overrun : S → Outcome S A
  aborted : Outcome S A
  out_of_bounds : Outcome S A
  thrown : S → Outcome S A

-- What holds of the result if the call returns.
abbrev pub OnOk : {S A : Type 0} → Outcome S A → (A → S → Type 0) → Type 0
OnOk (ok a s) P = P a s
OnOk (bad_alloc s) P = Unit
OnOk (overrun s) P = Unit
OnOk aborted P = Unit
OnOk out_of_bounds P = Unit
OnOk (thrown s) P = Unit

pub on_ok :
    {S A : Type 0} (P : A → S → Type 0) (r : Outcome S A) {a : A} {s : S}
    → OnOk r P
    → r ≡ ok a s
    → P a s
on_ok P r h e = rw e at h

pub ok-inj : {S A : Type 0} {a b : A} {s t : S} → ok a s ≡ ok b t → s ≡ t
ok-inj {S} {A} {a} {b} {s} {t} e = on_ok (λ (x : A) (y : S). s ≡ y) (ok a s) refl e

pub OnOk-map :
    {S A : Type 0} {P Q : A → S → Type 0} (r : Outcome S A)
    → ((a : A) (s : S) → P a s → Q a s)
    → OnOk r P
    → OnOk r Q
OnOk-map (ok a s) f h = f a s h
OnOk-map (bad_alloc s) f h = tt
OnOk-map (overrun s) f h = tt
OnOk-map aborted f h = tt
OnOk-map out_of_bounds f h = tt
OnOk-map (thrown s) f h = tt

abbrev pub update {ℓ} : {A : Type ℓ} → (ℕ → A) → ℕ → A → ℕ → A
update f i a j = if j == i then a else f j

-- `for (i=0; i<n; i++)` up to the first index that passes the test.
unfoldable pub first_index : (ℕ → Bool) → ℕ → ℕ → Option ℕ
first_index test zero i = none
first_index test (suc n) i =
    let rest = first_index test n (suc i) in if test i then some i else rest

module _ (G : Segment) where
  -- What all processes share: the block manager and the memory of the segment.
  pub record Shared : Type 0 where
    pub num_clients : ℕ
    pub descriptors : ℕ → Descriptor
    pub segment : G.Memory

  -- A caller's handle, which calls change, beside the shared state.
  pub record Client : Type 0 where
    pub shm : ShmHandle
    pub shared : Shared

  -- What other processes do while a wait on a condition has released its lock: on `cond`, on
  -- `lockcond` of a block, and on `datacond` of a block, with the answer of `timed_wait`.
  pub record Others : Type 0 where
    pub global : Shared → Shared
    pub local : ℕ → Shared → Shared
    pub arrival : ℕ → Shared → Shared × Bool

  abbrev pub set_descriptor : ℕ → Descriptor → Shared → Shared
  set_descriptor i d s = record s { descriptors = update s.descriptors i d }

  abbrev pub find_block : ℕ → Shared → Found
  find_block i s = G.find s.segment (key (s.descriptors i))

  module _ (others : Others) where
    unfoldable pub check_global_clients : Shared → Shared
    check_global_clients s = if s.num_clients == 0 then s else others.global s

    unfoldable pub check_clients : ℕ → Shared → Shared
    check_clients i s = if (s.descriptors i).num_clients == 0 then s else others.local i s

  unfoldable pub register_global_client : Shared → Shared
  register_global_client s = record s { num_clients = s.num_clients + 1 }

  -- `none` is the failed assertion `num_clients >= 0`.
  unfoldable pub unregister_global_client : Shared → Option Shared
  unregister_global_client s =
      if s.num_clients == 0 then none else some (record s { num_clients = s.num_clients - 1 })
