-- ===== src/Publisher/Initialise.antt =====
-- The first run of a publisher: what `initialise` leaves, and what happens after it failed.
use message_transport.Common.{
  ℕ, ◌≡◌, ◌⊎◌, inl, inr, refl, ap, Bool, true, false, List, Bool-cases, if◌then◌else◌, arith,
}
use message_transport.Serialization.Serializer.{Serializer}
use message_transport.Sharedmem.Segment.{Segment, IsSegment}
use message_transport.Sharedmem.Block.State.{
  ShmHandle, no_handle, is_valid, Outcome, ok, bad_alloc, overrun, aborted, out_of_bounds, thrown,
  OnOk, on_ok, Shared, Others,
}
use message_transport.Sharedmem.Block.Operations.{allocate_block}
use message_transport.Sharedmem.Block.Validity.{IsValid}
use message_transport.Sharedmem.Block.Lookup.{Answers}
use message_transport.Sharedmem.Block.Ends.{NoSpace, allocate_block_cases}
use message_transport.Publisher.Sender.{
  c_str, Opening, opened, no_memory, refused, Environment, failed, SharedmemPublisherImpl,
  SharedmemPublisher, new_impl, new_sharedmem_publisher, lift, Sending, connect, open_segment,
  initialise, publish_msg, publish_on, first_publish, publish,
}

module _ (G : Segment) (others : Others G) (env : Environment) where
  connect-registered :
      (p : SharedmemPublisherImpl) (r : Outcome (Shared G) ShmHandle)
      → p.client_registered ≡ true
      → OnOk (connect G others env p r) (λ n x. x.0.client_registered ≡ true)
  unfolding connect
  connect-registered p (ok shm s) e = e
  connect-registered p (bad_alloc s) e = e
  connect-registered p (overrun s) e = tt
  connect-registered p aborted e = tt
  connect-registered p out_of_bounds e = tt
  connect-registered p (thrown s) e = tt

  open_segment-registered :
      (o : Opening) (b : Bool) (topic : List ℕ) (p : SharedmemPublisherImpl) (s : Shared G)
      → p.client_registered ≡ true
      → OnOk (open_segment G others env o b topic p s) (λ n x. x.0.client_registered ≡ true)
  unfolding open_segment
  open_segment-registered no_memory b topic p s e = e
  open_segment-registered refused b topic p s e = tt
  open_segment-registered opened false topic p s e = e
  open_segment-registered opened true topic p s e =
      connect-registered p (allocate_block G others (c_str env.beyond topic) 16 s) e

  if-OnOk :
      {S A : Type 0} (P : A → S → Type 0) (b : Bool) (x y : Outcome S A)
      → (b ≡ true → OnOk x P)
      → OnOk y P
      → OnOk (if b then x else y) P
  if-OnOk P true x y f h = f refl
  if-OnOk P false x y f h = h

  pub initialise-registered :
      (topic : List ℕ) (p : SharedmemPublisherImpl) (s : Shared G)
      → OnOk (initialise G others env topic (p, s)) (λ n x. x.0.client_registered ≡ true)
  unfolding initialise
  initialise-registered topic p s =
      if-OnOk (λ n x. x.0.client_registered ≡ true) p.client_registered
        (ok p.shm_handle_.handle (p, s))
        (open_segment G others env env.opening env.manager topic
          (record p { client_registered = true }) s)
        (λ e. e)
        (open_segment-registered env.opening env.manager topic
          (record p { client_registered = true }) s refl)

  -- Once `initialise` has returned, whatever it returned, it is not tried again: a second call, in any
  -- environment and state, returns the number of the handle and changes nothing.
  pub initialise_once :
      (topic : List ℕ) (p p' : SharedmemPublisherImpl) (s s' t : Shared G) (n : ℕ)
      (later : Environment)
      → initialise G others env topic (p, s) ≡ ok n (p', s')
      → initialise G others later topic (p', t) ≡ ok p'.shm_handle_.handle (p', t)
  unfolding initialise
  initialise_once topic p p' s s' t n later e =
      let registered : p'.client_registered ≡ true =
        on_ok (λ n x. x.0.client_registered ≡ true) (initialise G others env topic (p, s))
          (initialise-registered topic p s) e in
      ap
        (λ (b : Bool).
          if b
          then ok p'.shm_handle_.handle (p', t)
          else open_segment G others later later.opening later.manager topic
              (record p' { client_registered = true }) t)
        registered

  -- The publisher once `initialise` has set `clientRegistered`, and where it then gave up.
  abbrev pub tried : SharedmemPublisherImpl → SharedmemPublisherImpl
  tried p = record p { client_registered = true }

  abbrev pub not_connected : SharedmemPublisherImpl → SharedmemPublisherImpl
  not_connected p = record p { client_registered = true; connected = false }

  -- The first `initialise` that finds the segment and its manager: `allocateBlock` gave a handle, or
  -- threw as the segment had no space.
  abbrev pub Attached :
      List ℕ → SharedmemPublisherImpl → Shared G → Outcome (Sending G others env) ℕ → Type 0
  Attached topic p s r =
      ((shm : ShmHandle) × (t : Shared G) × (r
          ≡ ok shm.handle
              (record p { client_registered = true; connected = true; shm_handle_ = shm }, t))
        × (allocate_block G others (c_str env.beyond topic) 16 s ≡ ok shm t)
        × Answers G s (c_str env.beyond topic) 16 shm t)
      ⊎ ((t : Shared G) × (r ≡ ok failed (not_connected p, t))
          × (allocate_block G others (c_str env.beyond topic) 16 s ≡ bad_alloc t)
          × NoSpace G (c_str env.beyond topic) 16 s)

  -- How the first `initialise` ends, by what it finds.
  abbrev pub Connected :
      List ℕ → SharedmemPublisherImpl → Shared G → Outcome (Sending G others env) ℕ → Type 0
  Connected topic p s r =
      ((env.opening ≡ refused) × (r ≡ thrown (tried p, s)))
      ⊎ (((env.opening ≡ no_memory) ⊎ ((env.opening ≡ opened) × (env.manager ≡ false)))
          × (r ≡ ok failed (not_connected p, s)))
      ⊎ ((env.opening ≡ opened) × (env.manager ≡ true) × Attached topic p s r)

  Opening_cases : (o : Opening) → (o ≡ refused) ⊎ (o ≡ no_memory) ⊎ (o ≡ opened)
  Opening_cases refused = inl refl
  Opening_cases no_memory = inr (inl refl)
  Opening_cases opened = inr (inr refl)

  -- With the segment and the manager there.
  pub initialise-Attached :
      (laws : IsSegment G) (topic : List ℕ) (p : SharedmemPublisherImpl) (s : Shared G)
      → IsValid G s
      → s.num_clients ≡ 0
      → p.client_registered ≡ false
      → env.opening ≡ opened
      → env.manager ≡ true
      → Attached topic p s (initialise G others env topic (p, s))
  unfolding initialise open_segment connect
  initialise-Attached laws topic p s valid quiet fresh there manager =
      elim (allocate_block_cases G laws others (c_str env.beyond topic) 16 s valid quiet
        (omega arith)) [
          | inl (shm, t, e, answers) ↦
              inl (shm, t, rw (fresh, there, manager, open_segment, e, connect) refl, e, answers)
          | inr (t, e, space) ↦
              inr (t, rw (fresh, there, manager, open_segment, e, connect) refl, e, space)
        ]

  -- A first `initialise` on a valid table where nobody waits ends by what it finds: where the segment
  -- cannot be opened, the exception leaves it; where there is no memory for it, or no manager in it, it
  -- gives -1, and no segment; with both there, it gives the number of the handle that `allocateBlock`
  -- gave for 16 bytes under the topic's name, which is current in a table that is valid again, or no
  -- handle where the table is full; or the segment failed to construct an object of 16
  -- bytes for the topic, and it gives -1. In each case
  -- it counts as tried.
  pub initialise-Connected :
      (laws : IsSegment G) (topic : List ℕ) (p : SharedmemPublisherImpl) (s : Shared G)
      → IsValid G s
      → s.num_clients ≡ 0
      → p.client_registered ≡ false
      → Connected topic p s (initialise G others env topic (p, s))
  unfolding initialise open_segment
  initialise-Connected laws topic p s valid quiet fresh = elim (Opening_cases env.opening) [
    | inl e ↦ inl (e, rw (fresh, e, open_segment) refl)
    | inr (inl e) ↦ inr (inl (inl e, rw (fresh, e, open_segment) refl))
    | inr (inr e) ↦ elim (Bool-cases env.manager) [
      | inr missing ↦ inr (inl (inr (e, missing), rw (fresh, e, missing, open_segment) refl))
      | inl there ↦
          inr (inr (e, there, initialise-Attached laws topic p s valid quiet fresh e there))
    ]
  ]

module _ (G : Segment) (others : Others G) (env : Environment) {T : Type 0} (S : Serializer T) where
  -- A new publisher in a process that finds the segment without its manager drops its first message
  -- and every later one, also when the manager is there by then: `publish` returns and the shared
  -- state stays as it is.
  pub publish_without_manager :
      (topic : List ℕ) (msg : T) (s : Shared G)
      → env.opening ≡ opened
      → env.manager ≡ false
      → (p : SharedmemPublisher) × (publish G others env S msg (new_sharedmem_publisher topic, s)
          ≡ ok tt (p, s))
        × ((later : Environment) (msg' : T) (t : Shared G)
            → publish G others later S msg' (p, t) ≡ ok tt (p, t))
  unfolding publish first_publish publish_on publish_msg is_valid initialise open_segment
      new_sharedmem_publisher new_impl lift
  publish_without_manager topic msg s there missing = (
    record {
      impl = record { connected = false; client_registered = true; shm_handle_ = no_handle };
      first_run_ = false;
      base_topic_ = topic;
    },
    rw (there, missing) refl,
    λ later msg' t. refl,
  )
