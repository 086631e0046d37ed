-- ===== src/Sharedmem/Session/Simulation.antt =====
-- Every call of the block manager does to the directory what it is for.
use message_transport.Common.{
  ℕ, ◌<◌, ◌≡◌, ◌≢◌, ◌⊎◌, inl, inr, refl, sym, ap, ◌∙◌, true, false, none, some, List, ℕ_discrete,
}
use message_transport.Sharedmem.Names.{Chars}
use message_transport.Sharedmem.Segment.{Segment, IsSegment}
use message_transport.Sharedmem.Descriptor.{key, name_of}
use message_transport.Sharedmem.Block.State.{num_block, ShmHandle, Shared, Client, Others}
use message_transport.Sharedmem.Block.Operations.{reset_entry, reset_all_blocks}
use message_transport.Sharedmem.Block.Allocate.{Allocated}
use message_transport.Sharedmem.Block.Lookup.{no_wait}
use message_transport.Sharedmem.Block.Access.{Coherent, NoRoom, Resized}
use message_transport.Sharedmem.Block.Release.{
  reset_entry-IsValid, reset_entry_free, reset_entry_other, reset_all_blocks_lem,
}
use message_transport.Sharedmem.Session.Directory.{
  Name-discrete, Change, stored, dropped, emptied, kept, Directory, apply, directory,
  directory-some, directory-none, directory_elsewhere,
}
use message_transport.Sharedmem.Session.Steps.{IsSettled}
use message_transport.Sharedmem.Session.Kept.{
  still_local, reset_entry_local, reset_entry_global, reset_from_clients,
}
use mathlib.Core.Logic.{if_pos, if_neg}

stored-apply :
    (d e : Directory) (name : List ℕ) (size : ℕ)
    → ((n : List ℕ) → n ≢ name → e n ≡ d n)
    → e name ≡ some size
    → (n : List ℕ) → e n ≡ apply (stored name size) d n
unfolding apply
stored-apply d e name size elsewhere at_name n = elim (Name-discrete n name) [
  | yes same ↦ ap e same ∙ at_name ∙ sym (if_pos (Name-discrete n name) same (some size) (d n))
  | no other ↦ elsewhere n other ∙ sym (if_neg (Name-discrete n name) other (some size) (d n))
]

dropped-apply :
    (d e : Directory) (name : List ℕ)
    → ((n : List ℕ) → n ≢ name → e n ≡ d n)
    → e name ≡ none
    → (n : List ℕ) → e n ≡ apply (dropped name) d n
unfolding apply
dropped-apply d e name elsewhere at_name n = elim (Name-discrete n name) [
  | yes same ↦ ap e same ∙ at_name ∙ sym (if_pos (Name-discrete n name) same none (d n))
  | no other ↦ elsewhere n other ∙ sym (if_neg (Name-discrete n name) other none (d n))
]

module _ (G : Segment) where
  -- The new state is settled, and its directory is the old one with the change.
  abbrev pub Simulates : Shared G → Shared G → Change → Type 0
  Simulates s t change =
      IsSettled G t × ((n : List ℕ) → directory G t n ≡ apply change (directory G s) n)

  pub kept-Simulates : (s t : Shared G) → IsSettled G s → t ≡ s → Simulates s t kept
  unfolding apply
  kept-Simulates s t settled e = rw e (settled, λ n. refl)

  -- A freed entry takes its name out of the directory.
  freed :
      (s t : Shared G) (h : ℕ)
      → IsSettled G s
      → IsSettled G t
      → h < num_block
      → (s.descriptors h).active_ ≡ true
      → (t.descriptors h).active_ ≡ false
      → ((j : ℕ) → j ≢ h → t.descriptors j ≡ s.descriptors j)
      → Simulates s t (dropped (key (s.descriptors h)))
  freed s t h settled after lt a free elsewhere = (
    after,
    dropped-apply (directory G s) (directory G t) (key (s.descriptors h))
        (λ n ne.
          directory_elsewhere G s t h (key (s.descriptors h)) n (settled.valid) (after.valid)
            elsewhere (λ _. refl) (λ a'. cc (free, a')) ne)
        (directory-none G t (key (s.descriptors h)) gone),
  )
    where
      gone :
          (j : ℕ)
          → j < num_block
          → (t.descriptors j).active_ ≡ true
          → key (t.descriptors j) ≢ key (s.descriptors h)
      gone j ltj aj k = elim (ℕ_discrete j h) [
        | yes e ↦ cc (free, rw e at aj)
        | no ne ↦
            let same = elsewhere j ne in
            ne (settled.valid.distinct j h ltj lt (rw same at aj) a (sym (ap key same) ∙ k))
      ]

module _ (G : Segment) (laws : IsSegment G) (others : Others G) where
  pub Allocated-Simulates :
      (name : Chars) (size : ℕ) (s t : Shared G) (shm : ShmHandle)
      → IsSettled G s
      → Allocated G name size s shm t
      → Simulates G s t (stored (name_of name) size)
  Allocated-Simulates name size s t shm settled good = (
    record {
      valid = good.valid;
      global = good.clients.0 ∙ settled.global;
      local =
          still_local s.descriptors t.descriptors shm.handle good.elsewhere good.clients.1
            settled.local;
    },
    stored-apply (directory G s) (directory G t) (name_of name) size
        (λ n ne.
          directory_elsewhere G s t shm.handle (name_of name) n (settled.valid) (good.valid)
            good.elsewhere was (λ _. good.named) ne)
        (directory-some G t shm.handle (name_of name) (good.valid) (good.current.inside)
            (good.current.active) (good.named)
          ∙ ap some (good.sized)),
  )
    where
      was :
          (s.descriptors shm.handle).active_ ≡ true → key (s.descriptors shm.handle) ≡ name_of name
      was a = elim (good.before) [ inl (_, k) ↦ k | inr free ↦ cc (a, free) ]

  Resized-IsSettled :
      (shm : ShmHandle) (size : ℕ) (s : Shared G) (c : Client G)
      → IsSettled G s
      → Resized G shm.handle size s c
      → IsSettled G c.shared
  Resized-IsSettled shm size s c settled r = record {
    valid = r.valid;
    global = r.clients.0 ∙ settled.global;
    local =
        still_local s.descriptors c.shared.descriptors shm.handle r.elsewhere r.clients.1
          settled.local;
  }

  pub Resized-Simulates :
      (shm : ShmHandle) (size : ℕ) (s : Shared G) (c : Client G)
      → IsSettled G s
      → Coherent G shm s
      → Resized G shm.handle size s c
      → (Simulates G s c.shared (stored (key (s.descriptors shm.handle)) size)
          × ¬ NoRoom G shm.handle size s)
        ⊎ (Simulates G s c.shared (dropped (key (s.descriptors shm.handle)))
            × NoRoom G shm.handle size s)
  Resized-Simulates shm size s c settled co r = elim (r.result) [
    | inr (_, free, short) ↦ inr (
      freed G s c.shared shm.handle settled (Resized-IsSettled shm size s c settled r) (co.inside)
          (co.active) free r.elsewhere,
      short,
    )
    | inl (cur, same, sized, room_left) ↦
        let a : (c.shared.descriptors shm.handle).active_ ≡ true = rw same at cur.active in
        let after = Resized-IsSettled shm size s c settled r in
        inl (
          (
            after,
            stored-apply (directory G s) (directory G c.shared) (key (s.descriptors shm.handle))
                size
                (λ n ne.
                  directory_elsewhere G s c.shared shm.handle (key (s.descriptors shm.handle)) n
                    (settled.valid) (after.valid) r.elsewhere (λ _. refl) r.named ne)
                (directory-some G c.shared shm.handle (key (s.descriptors shm.handle)) (after.valid)
                    (co.inside) a (r.named a)
                  ∙ ap some sized),
          ),
          room_left,
        )
  ]

  pub released-Simulates :
      (shm : ShmHandle) (s : Shared G)
      → IsSettled G s
      → Coherent G shm s
      → Simulates G s (reset_entry G shm.handle s) (dropped (key (s.descriptors shm.handle)))
  released-Simulates shm s settled co =
      freed G s (reset_entry G shm.handle s) shm.handle settled
        (record {
          valid = reset_entry-IsValid G laws s shm.handle (settled.valid) (co.inside) (co.active);
          global = reset_entry_global G laws s shm.handle ∙ settled.global;
          local = reset_entry_local G laws s shm.handle settled.local;
        })
        (co.inside) (co.active) (reset_entry_free G laws s shm.handle)
        (reset_entry_other G laws s shm.handle)

  pub cleared-Simulates :
      (s : Shared G) → IsSettled G s → Simulates G s (reset_all_blocks G others s) emptied
  unfolding apply reset_all_blocks
  cleared-Simulates s settled =
      let (free, _, valid) =
        reset_all_blocks_lem G laws others s (settled.valid) (settled.global) in
      let (quiet, idle) =
        reset_from_clients G laws num_block 0 s (settled.global) (settled.local) in
      (
        record {
          valid = valid;
          global = rw (no_wait G others s (settled.global)) quiet;
          local = λ i. rw (no_wait G others s (settled.global)) (idle i);
        },
        λ n. directory-none G _ n (λ i lt a. cc (free i lt, a)),
      )
