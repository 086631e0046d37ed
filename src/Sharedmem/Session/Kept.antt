-- ===== src/Sharedmem/Session/Kept.antt =====
-- What each call leaves of the registered clients and of the table.
use message_transport.Common.{
  ℕ, zero, suc, ◌+◌, ◌≡◌, ◌≢◌, refl, ap, ◌∙◌, fun_ext, Bool, true, false, none, some, List, ltb,
  ◌==◌, lt→ltb, Bool-cases, inl, inr, ℕ_discrete, arith,
}
use message_transport.Serialization.Stream
use message_transport.Serialization.Serializer.{Serializer}
use message_transport.Serialization.Interface.{serialize, deserialize}
use message_transport.Sharedmem.Segment.{Segment, IsSegment}
use message_transport.Sharedmem.Descriptor.{Descriptor, reset, register_client, unregister_client}
use message_transport.Sharedmem.Block.State.{
  num_block, ShmHandle, no_handle, is_valid, Outcome, ok, bad_alloc, overrun, aborted,
  out_of_bounds, thrown, OnOk, update, Shared, Client, Others, set_descriptor,
  register_global_client, unregister_global_client,
}
use message_transport.Sharedmem.Block.Operations.{reset_entry, reset_from, reset_block}
use message_transport.Sharedmem.Block.Transfer.{
  refreshed, block_stream, with_bytes, serialize_through, serialize_registered, serialize_message,
  deserialize_message, leave, leave_after, wait_data,
}
use message_transport.Sharedmem.Block.Validity.{update_same, update_ne, update_twice}
use message_transport.Sharedmem.Block.Lookup.{no_wait}
use message_transport.Sharedmem.Block.Access.{Coherent, no_local_wait}
use message_transport.Sharedmem.Block.Exchange.{
  with_message, with_message-IsValid, suc_nonzero, suc_pred, unregister_registered,
}
use message_transport.Sharedmem.Session.Steps.{IsSettled}

pub update_self {ℓ} : {A : Type ℓ} (f : ℕ → A) (i : ℕ) (a : A) → a ≡ f i → update f i a ≡ f
update_self f i a e = fun_ext λ j. elim (ℕ_discrete j i) [
  | yes same ↦ rw same (update_same f i a ∙ e)
  | no other ↦ update_ne f i j a other
]

-- The counters of all blocks after a change of one.
pub still_local :
    (f g : ℕ → Descriptor) (h : ℕ)
    → ((j : ℕ) → j ≢ h → g j ≡ f j)
    → (g h).num_clients ≡ (f h).num_clients
    → ((i : ℕ) → (f i).num_clients ≡ 0)
    → (i : ℕ) → (g i).num_clients ≡ 0
still_local f g h elsewhere here idle i = elim (ℕ_discrete i h) [
  | yes e ↦ ap (λ (j : ℕ). (g j).num_clients) e ∙ here ∙ idle h
  | no ne ↦ ap (λ (d : Descriptor). d.num_clients) (elsewhere i ne) ∙ idle i
]

module _ (G : Segment) (laws : IsSegment G) where
  reset_entry_clients :
      (s : Shared G) (i j : ℕ)
      → ((reset_entry G i s).descriptors j).num_clients ≡ (s.descriptors j).num_clients
  unfolding reset_entry reset
  reset_entry_clients s i j = elim (ℕ_discrete j i) [
    | yes e ↦ rw e (ap (λ (d : Descriptor). d.num_clients) (update_same s.descriptors i _))
    | no ne ↦ ap (λ (d : Descriptor). d.num_clients) (update_ne s.descriptors i j _ ne)
  ]

  pub reset_entry_global : (s : Shared G) (i : ℕ) → (reset_entry G i s).num_clients ≡ s.num_clients
  unfolding reset_entry
  reset_entry_global s i = refl

  pub reset_entry_local :
      (s : Shared G) (i : ℕ)
      → ((j : ℕ) → (s.descriptors j).num_clients ≡ 0)
      → (j : ℕ) → ((reset_entry G i s).descriptors j).num_clients ≡ 0
  reset_entry_local s i idle j = reset_entry_clients s i j ∙ idle j

  pub reset_from_clients :
      (n i : ℕ) (s : Shared G)
      → s.num_clients ≡ 0
      → ((j : ℕ) → (s.descriptors j).num_clients ≡ 0)
      → ((reset_from G n i s).num_clients ≡ 0)
        × ((j : ℕ) → ((reset_from G n i s).descriptors j).num_clients ≡ 0)
  unfolding reset_from
  reset_from_clients zero i s quiet idle = (quiet, idle)
  reset_from_clients (suc n) i s quiet idle = elim (Bool-cases (s.descriptors i).active_) [
    | inl a ↦
        rw (reset_from, a)
          (reset_from_clients n (suc i) (reset_entry G i s) (reset_entry_global s i ∙ quiet)
            (reset_entry_local s i idle))
    | inr a ↦ rw (reset_from, a) (reset_from_clients n (suc i) s quiet idle)
  ]

  -- `resetBlock` through a handle of a block, with no client anywhere.
  pub reset_block-entry :
      (others : Others G) (shm : ShmHandle) (s : Shared G)
      → IsSettled G s
      → Coherent G shm s
      → reset_block G others (record { shm = shm; shared = s })
        ≡ ok tt (record { shm = no_handle; shared = reset_entry G shm.handle s })
  unfolding reset_block is_valid
  reset_block-entry others shm s settled co =
      let there : (shm.ptr == 0) ≡ false = ground (arith, co.there) in
      rw (
        no_local_wait G others shm.handle s (settled.local shm.handle),
        no_wait G others s (settled.global),
        lt→ltb shm.handle num_block (co.inside),
        there,
      )

  pub with_message-IsSettled :
      (p : ℕ) (bytes : List ℕ) (s : Shared G)
      → IsSettled G s
      → IsSettled G (with_message G p bytes s)
  with_message-IsSettled p bytes s settled = record {
    valid = with_message-IsValid G laws p bytes s (settled.valid);
    global = settled.global;
    local = settled.local;
  }

  module _ (others : Others G) {T : Type 0} (S : Serializer T) where
    abbrev Written : Shared G → Unit {0} → Client G → Type 0
    Written s _ c' = (p : ℕ) × (bytes : List ℕ) × (c'.shared ≡ with_message G p bytes s)

    through-Written :
        (v : T) (dest : ShmHandle) (s : Shared G)
        → OnOk
            (serialize_through G others S v dest (record s { num_clients = s.num_clients + 1 }))
            (Written s)
    unfolding serialize_through
    through-Written v dest s = go (
        serialize S v (block_stream G others S dest (record s { num_clients = s.num_clients + 1 })))
      where
        go :
            (r : Stream.Outcome (Unit {0}))
            → OnOk
                (elim r [
                  | Stream.ok _ t ↦
                      elim (unregister_global_client G (
                        with_bytes G others S dest t
                          (record s { num_clients = s.num_clients + 1 }))) [
                            | some s' ↦ ok tt (record { shm = dest; shared = s' })
                            | none ↦ aborted
                          ]
                  | Stream.overrun t ↦ overrun (record {
                    shm = dest;
                    shared =
                        with_bytes G others S dest t (record s { num_clients = s.num_clients + 1 });
                  })
                ])
                (Written s)
        go (Stream.ok u t) =
            rw (unregister_registered G (with_message G dest.ptr t.mem s)) (dest.ptr, t.mem, refl)
        go (Stream.overrun t) = tt

    -- `serialize` that returns has changed nothing but bytes.
    pub serialize_message-Written :
        (v : T) (shm : ShmHandle) (s : Shared G)
        → IsSettled G s
        → OnOk (serialize_message G others S v (record { shm = shm; shared = s })) (Written s)
    unfolding serialize_message serialize_registered register_global_client
    serialize_message-Written v shm s settled =
        rw (no_local_wait G others shm.handle s (settled.local shm.handle))
          (elim (Bool-cases (ltb shm.handle num_block)) [
            | inl e ↦ rw e (
                through-Written v
                  (refreshed G others S shm (record s { num_clients = s.num_clients + 1 })) s)
            | inr e ↦ rw (e, OnOk) tt
          ])

    deserialize_message_kept :
        (old : T) (c : Client G)
        → OnOk (deserialize_message G others S old c) (λ v c'. c'.shared ≡ c.shared)
    unfolding deserialize_message
    deserialize_message_kept old c = elim (Bool-cases (ltb c.shm.handle num_block)) [
      | inl e ↦ rw e (
          go (
            deserialize S old
              (block_stream G others S (refreshed G others S c.shm c.shared) c.shared)))
      | inr e ↦ rw (e, OnOk) tt
    ]
      where
        go :
            (r : Stream.Outcome T)
            → OnOk {S = Client G} {A = T}
                (elim r [
                  | Stream.ok v _ ↦
                      ok v (record { shm = refreshed G others S c.shm c.shared; shared = c.shared })
                  | Stream.overrun _ ↦
                      overrun
                        (record { shm = refreshed G others S c.shm c.shared; shared = c.shared })
                ])
                (λ v c'. c'.shared ≡ c.shared)
        go (Stream.ok v t) = refl
        go (Stream.overrun t) = tt

    -- `leave` takes back exactly what was registered.
    leave-registered :
        (i : ℕ) (s : Shared G)
        → leave G others S i
            (register_global_client G (set_descriptor G i (register_client (s.descriptors i)) s))
          ≡ some s
    unfolding leave register_global_client register_client unregister_client
    leave-registered i s =
        rw
          (
            leave,
            unregister_registered G (
                set_descriptor G i
                  (record (s.descriptors i) { num_clients = (s.descriptors i).num_clients + 1 }) s),
            update_same s.descriptors i
                (record (s.descriptors i) { num_clients = (s.descriptors i).num_clients + 1 }),
            suc_nonzero (s.descriptors i).num_clients,
            suc_pred (s.descriptors i).num_clients,
          )
          (ap (λ (f : ℕ → Descriptor). some (record s { descriptors = f }))
            (update_twice s.descriptors i _ _ refl))

    leave_after_kept :
        (i : ℕ) (s : Shared G) (r : Outcome (Client G) T)
        → OnOk r (λ v c'.
          c'.shared
          ≡ register_global_client G (set_descriptor G i (register_client (s.descriptors i)) s))
        → OnOk (leave_after G others S i r) (λ v c'. c'.shared ≡ s)
    unfolding leave_after
    leave_after_kept i s (ok v c) e = rw (e, leave_after, leave-registered i s) refl
    leave_after_kept i s (bad_alloc c) e = tt
    leave_after_kept i s (overrun c) e = tt
    leave_after_kept i s aborted e = tt
    leave_after_kept i s out_of_bounds e = tt
    leave_after_kept i s (thrown c) e = tt

    -- `wait_data` that returns, where nothing happened during the wait, has changed nothing.
    pub wait_data_kept :
        (old : T) (shm : ShmHandle) (s : Shared G) (b : Bool)
        → others.arrival shm.handle s ≡ (s, b)
        → OnOk (wait_data G others S old (record { shm = shm; shared = s })) (λ a c'. c'.shared ≡ s)
    unfolding wait_data
    wait_data_kept old shm s b e = elim (Bool-cases (ltb shm.handle num_block)) [
      | inr out ↦ rw (e, out, OnOk) tt
      | inl inside ↦ by_answer inside b e
    ]
      where
        by_answer :
            ltb shm.handle num_block ≡ true
            → (b : Bool) → others.arrival shm.handle s ≡ (s, b)
            → OnOk
                (wait_data G others S old (record { shm = shm; shared = s }))
                (λ a c'. c'.shared ≡ s)
        by_answer inside true e =
            rw (e, inside)
              (leave_after_kept shm.handle s _ (
                deserialize_message_kept old (record {
                  shm = shm;
                  shared =
                      register_global_client G (
                        set_descriptor G shm.handle (register_client (s.descriptors shm.handle)) s);
                })))
        by_answer inside false e = rw (e, inside, OnOk) refl
