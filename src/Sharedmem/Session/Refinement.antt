-- ===== src/Sharedmem/Session/Refinement.antt =====
-- Runs of calls refine the directory that maps each name to the bytes in use.
use message_transport.Common.{
  ℕ, ◌^◌, ◌<◌, ◌≡◌, ◌⊎◌, inl, inr, refl, sym, ap, ◌∙◌, subst, fun_ext, Bool, none, List,
}
use message_transport.Serialization.Serializer.{Serializer}
use message_transport.Sharedmem.Names.{Chars}
use message_transport.Sharedmem.Segment.{Segment, IsSegment}
use message_transport.Sharedmem.Descriptor.{new_descriptor, key}
use message_transport.Sharedmem.Block.State.{ShmHandle, ok, on_ok, ok-inj, Shared, Client, Others}
use message_transport.Sharedmem.Block.Operations.{
  find_handle, allocate_block, reallocate_block, reset_all_blocks,
}
use message_transport.Sharedmem.Block.Transfer.{serialize_message}
use message_transport.Sharedmem.Block.Allocate.{Allocated}
use message_transport.Sharedmem.Block.Lookup.{allocate_block-Answers, find_handle_cases}
use message_transport.Sharedmem.Block.Access.{Quiet, Coherent, NoRoom, Resized}
use message_transport.Sharedmem.Block.Reallocate.{reallocate_block-Resized}
use message_transport.Sharedmem.Block.Exchange.{with_message}
use message_transport.Sharedmem.Session.Directory.{
  Change, stored, dropped, kept, Directory, apply, directory,
}
use message_transport.Sharedmem.Session.Steps.{
  new_manager, IsFull, IsSettled, Step, allocated, full, found, reallocated, given_up, released,
  cleared, sent, received, Run, here, next, apply_all,
}
use message_transport.Sharedmem.Session.Kept.{
  reset_block-entry, with_message-IsSettled, serialize_message-Written, wait_data_kept,
}
use message_transport.Sharedmem.Session.Simulation.{
  Simulates, kept-Simulates, Allocated-Simulates, Resized-Simulates, released-Simulates,
  cleared-Simulates,
}

module _ (G : Segment) where
  settled-Quiet : (s : Shared G) (i : ℕ) → IsSettled G s → Quiet G i s
  settled-Quiet s i settled = record { global = settled.global; local = settled.local i }

  -- A new manager in a segment without blocks is settled.
  pub new_manager-IsSettled :
      (garbage : ℕ → Chars) (m : G.Memory)
      → ((n : List ℕ) → (G.find m n).first ≡ 0)
      → IsSettled G (new_manager G garbage m)
  unfolding new_manager new_descriptor
  new_manager-IsSettled garbage m empty = record {
    valid = record {
      backed = λ i lt a. cc;
      distinct = λ i j lti ltj a b. cc;
      idle = λ i lt a. refl;
      owned = λ n there. absurd (there (empty n));
    };
    global = refl;
    local = λ i. refl;
  }

module _ (G : Segment) (laws : IsSegment G) (others : Others G) {T : Type 0}
    (S : Serializer T) where
  found_same :
      (name : Chars) (s : Shared G) {shm : ShmHandle} {t : Shared G}
      → IsSettled G s
      → find_handle G others name s ≡ ok shm t
      → t ≡ s
  found_same name s settled e =
      elim (find_handle_cases G laws others name s settled.valid settled.global) [
        | inl (_, f, _, _) ↦ sym (ok-inj (sym f ∙ e))
        | inr (f, _) ↦ sym (ok-inj (sym f ∙ e))
      ]

  -- `allocateBlock` gives a block where an entry has the name or is free.
  not_crowded :
      (name : Chars) (size : ℕ) (s : Shared G) (shm : ShmHandle) (t : Shared G)
      → Allocated G name size s shm t
      → ¬ IsFull G name s
  not_crowded name size s shm t good crowded =
      let (active, other) = crowded shm.handle good.current.inside in
      elim (good.before) [ inl (_, k) ↦ other k | inr free ↦ cc (free, active) ]

  full_same :
      (name : Chars) (size : ℕ) (s : Shared G) {shm : ShmHandle} {t : Shared G}
      → IsSettled G s
      → size < 2 ^ 32
      → allocate_block G others name size s ≡ ok shm t
      → IsFull G name s
      → t ≡ s
  full_same name size s {shm} settled wide e crowded =
      elim (allocate_block-Answers G laws others name size s settled.valid settled.global wide e) [
        | inl good ↦ absurd (not_crowded name size s shm _ good crowded)
        | inr (_, same, _) ↦ same
      ]

  -- A message that was sent leaves the directory as it was.
  sent-Simulates :
      (msg : T) (shm shm' : ShmHandle) (s t : Shared G)
      → IsSettled G s
      → serialize_message G others S msg (record { shm = shm; shared = s })
        ≡ ok tt (record { shm = shm'; shared = t })
      → Simulates G s t kept
  unfolding apply directory
  sent-Simulates msg shm shm' s t settled e =
      let (p, bytes, same) =
        on_ok
          (λ (u : Unit {0}) (c : Client G).
            (p : ℕ) × (bytes : List ℕ) × (c.shared ≡ with_message G p bytes s))
          _ (serialize_message-Written G laws others S msg shm s settled) e in
      rw same (with_message-IsSettled G laws p bytes s settled, λ n. refl)

  resized_end :
      (size : ℕ) (shm shm' : ShmHandle) (s t : Shared G)
      → IsSettled G s
      → size < 2 ^ 32
      → Coherent G shm s
      → reallocate_block G others size (record { shm = shm; shared = s })
        ≡ ok tt (record { shm = shm'; shared = t })
      → (Simulates G s t (stored (key (s.descriptors shm.handle)) size)
          × ¬ NoRoom G shm.handle size s)
        ⊎ (Simulates G s t (dropped (key (s.descriptors shm.handle))) × NoRoom G shm.handle size s)
  resized_end size shm shm' s t settled wide co e =
      let (c, run, r) =
        reallocate_block-Resized G laws others size wide (record { shm = shm; shared = s })
          settled.valid (settled-Quiet G s shm.handle settled) co in
      let same = ok-inj (sym run ∙ e) in
      Resized-Simulates G laws others shm size s (record { shm = shm'; shared = t }) settled co
        (subst (Resized G shm.handle size s) same r)

  -- Each step from a settled state changes the directory as its change says.
  pub Step-Simulates :
      {s t : Shared G} {change : Change}
      → Step G others S s t change
      → IsSettled G s
      → Simulates G s t change
  Step-Simulates {s} {t} (allocated name size shm wide e place is) settled =
      rw is
        (elim (allocate_block-Answers G laws others name size s settled.valid settled.global wide
          e) [
            | inl good ↦ Allocated-Simulates G laws others name size s t shm settled good
            | inr (_, _, crowded) ↦ absurd (place crowded)
          ])
  Step-Simulates {s} {t} (full name size shm wide e crowded is) settled =
      rw is (kept-Simulates G s t settled (full_same name size s settled wide e crowded))
  Step-Simulates {s} {t} (found name shm e is) settled =
      rw is (kept-Simulates G s t settled (found_same name s settled e))
  Step-Simulates {s} {t} (reallocated size shm shm' wide co e room_left is) settled =
      rw is (elim (resized_end size shm shm' s t settled wide co e) [
        | inl (good, _) ↦ good
        | inr (_, short) ↦ absurd (room_left short)
      ])
  Step-Simulates {s} {t} (given_up size shm shm' wide co e short is) settled =
      rw is (elim (resized_end size shm shm' s t settled wide co e) [
        | inl (_, room_left) ↦ absurd (room_left short)
        | inr (good, _) ↦ good
      ])
  Step-Simulates {s} {t} (released shm shm' co e is) settled =
      let same =
        ap (λ (c : Client G). c.shared)
          (ok-inj (sym (reset_block-entry G laws others shm s settled co) ∙ e)) in
      rw is (
        subst (λ (u : Shared G). Simulates G s u (dropped (key (s.descriptors shm.handle)))) same
          (released-Simulates G laws others shm s settled co))
  Step-Simulates {s} {t} (cleared e is) settled =
      rw (is, e) (cleared-Simulates G laws others s settled)
  Step-Simulates {s} {t} (sent msg shm shm' e is) settled =
      rw is (sent-Simulates msg shm shm' s t settled e)
  Step-Simulates {s} {t} (received old shm shm' answer quiet e is) settled = rw is (
      kept-Simulates G s t settled (
        on_ok (λ (a : Bool × T) (c : Client G). c.shared ≡ s) _
          (wait_data_kept G laws others S old shm s answer.0 quiet) e))

  pub Run-directory :
      {s t : Shared G} {changes : List Change}
      → Run G others S s changes t
      → IsSettled G s
      → IsSettled G t × ((n : List ℕ) → directory G t n ≡ apply_all changes (directory G s) n)
  unfolding apply_all
  Run-directory here settled = (settled, λ n. refl)
  Run-directory {s} {t = u} (next {changes} {change} {t} run step) settled =
      let (before, same) = Run-directory run settled in
      let (after, last) = Step-Simulates step before in
      (after, λ n. last n ∙ ap (λ (d : Directory). apply change d n) (fun_ext same))

module _ (G : Segment) (laws : IsSegment G) (others : Others G) where
  -- `resetAllBlocks` empties the directory.
  pub reset_all_blocks-Simulates :
      (s : Shared G)
      → IsSettled G s
      → IsSettled G (reset_all_blocks G others s)
        × ((n : List ℕ) → directory G (reset_all_blocks G others s) n ≡ none)
  unfolding apply
  reset_all_blocks-Simulates s settled = cleared-Simulates G laws others s settled
