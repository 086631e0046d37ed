-- ===== src/Manager.antt =====
-- The program of sharedmem_manager.cpp, which owns the segment: it creates it with a new block manager,
-- waits until it is told to end, and resets all blocks.
mod Tests
use message_transport.Common.{
  ℕ, ◌*◌, ◌≡◌, ◌≢◌, refl, sym, ap, ◌∙◌, Bool, true, false, Option, none, some, List, [], ◌∷◌, ◌⊎◌,
  inl, inr, Option-cases,
}
use message_transport.Serialization.Serializer.{Serializer}
use message_transport.Sharedmem.Names.{Chars}
use message_transport.Sharedmem.Segment.{Found, Segment, IsSegment}
use message_transport.Sharedmem.Block.State.{Shared, Others}
use message_transport.Sharedmem.Block.Operations.{reset_all_blocks}
use message_transport.Sharedmem.Session.Directory.{Change, directory}
use message_transport.Sharedmem.Session.Steps.{new_manager, IsSettled, Run}
use message_transport.Sharedmem.Session.Refinement.{
  new_manager-IsSettled, Run-directory, reset_all_blocks-Simulates,
}

-- "MessageTransport_SharedMemoryBlock", and 8 MiB.
abbrev pub default_name : List ℕ
default_name =
    77 ∷ 101 ∷ 115 ∷ 115 ∷ 97 ∷ 103 ∷ 101 ∷ 84 ∷ 114 ∷ 97 ∷ 110 ∷ 115 ∷ 112 ∷ 111 ∷ 114 ∷ 116 ∷ 95
    ∷ 83 ∷ 104 ∷ 97 ∷ 114 ∷ 101 ∷ 100 ∷ 77 ∷ 101 ∷ 109 ∷ 111 ∷ 114 ∷ 121 ∷ 66 ∷ 108 ∷ 111 ∷ 99 ∷ 107
    ∷ []

abbrev pub default_size : ℕ
default_size = 1024 * 1024 * 8

-- What the parsing of the command line and the environment ends in: an exception, or whether "help"
-- was given and the values of "segment_size" and "segment_name", if they were.
pub data Parsed : Type 0 where
  refused : Parsed
  accepted : Bool → Option ℕ → Option (List ℕ) → Parsed

unfoldable pub or_default : {A : Type 0} → A → Option A → A
or_default a none = a
or_default a (some b) = b

-- The machine's shared memory objects: `shared_memory_object::remove`, whether there is an object of a
-- name, `managed_shared_memory(create_only, ...)`, with none for an exception, and
-- `find_or_construct<SharedMemoryBlock>("Manager")` in a new segment, with none for bad_alloc.
pub record Objects (G : Segment) : Type 1 where
  pub Table : Type 0
  pub exists : Table → List ℕ → Bool
  pub remove : Table → List ℕ → Table
  pub create : Table → List ℕ → ℕ → Option (Table × G.Memory)
  pub construct_manager : G.Memory → Option G.Memory

pub record IsObjects (G : Segment) (O : Objects G) : Type 0 where
  pub exists-remove : (t : O.Table) (n : List ℕ) → O.exists (O.remove t n) n ≡ false
  -- A new segment has no blocks, and the manager in it is none.
  pub create_empty :
      (t t' : O.Table) (n : List ℕ) (size : ℕ) (m : G.Memory)
      → O.create t n size ≡ some (t', m)
      → (k : List ℕ) → (G.find m k).first ≡ 0
  pub construct_manager_same :
      (m m' : G.Memory) → O.construct_manager m ≡ some m' → (k : List ℕ) → G.find m' k ≡ G.find m k

module _ (G : Segment) (others : Others G) (O : Objects G) where
  -- The exit code with the objects and, where the manager ran, its last state; or the end by an
  -- exception that nobody catches, which unwinds nothing.
  pub data Exit : Type 0 where
    exited : ℕ → O.Table → Option (Shared G) → Exit
    uncaught : O.Table → Exit

  -- `main` from `find_or_construct` on; `meanwhile` is what the clients do until the user ends it.
  unfoldable pub run_manager :
      (ℕ → Chars) → (Shared G → Shared G) → List ℕ → Option G.Memory → O.Table → Exit
  run_manager garbage meanwhile segment_name none t = uncaught t
  run_manager garbage meanwhile segment_name (some m) t =
      exited 0 (O.remove t segment_name)
        (some (reset_all_blocks G others (meanwhile (new_manager G garbage m))))

  -- `main` from what the creation of the segment gave.
  unfoldable pub manage :
      (ℕ → Chars) → (Shared G → Shared G) → List ℕ → Option (O.Table × G.Memory) → O.Table → Exit
  manage garbage meanwhile segment_name none t = uncaught t
  manage garbage meanwhile segment_name (some (t', m)) t =
      run_manager garbage meanwhile segment_name (O.construct_manager m) t'

  unfoldable pub manager_main : (ℕ → Chars) → (Shared G → Shared G) → Parsed → O.Table → Exit
  manager_main garbage meanwhile refused t = exited 1 t none
  manager_main garbage meanwhile (accepted true size name) t = exited 0 t none
  manager_main garbage meanwhile (accepted false size name) t =
      let segment_name = or_default default_name name in
      let removed = O.remove t segment_name in
      manage garbage meanwhile segment_name
        (O.create removed segment_name (or_default default_size size)) removed

  -- Where the machine can create the segment, whether an object of that name was there before or not:
  -- either the segment is too small for the manager, and the program dies of the exception and leaves
  -- the segment behind; or, what the clients do from the new manager until the user ends the program
  -- being a run of the block manager's calls one after the other, it exits with 0, no object of the
  -- segment's name is left, and in its last state no name has a block and no client is registered.
  pub manager_main_lem :
      (laws : IsSegment G) (there : IsObjects G O) {T : Type 0} (S : Serializer T)
      (garbage : ℕ → Chars) (meanwhile : Shared G → Shared G) (size : Option ℕ)
      (name : Option (List ℕ)) (t t' : O.Table) (m : G.Memory)
      → O.create
          (O.remove t (or_default default_name name))
          (or_default default_name name)
          (or_default default_size size)
        ≡ some (t', m)
      → ((m' : G.Memory)
          → O.construct_manager m ≡ some m'
          → (changes : List Change) × Run G others S
              (new_manager G garbage m')
              changes
              (meanwhile (new_manager G garbage m')))
      → ((O.construct_manager m ≡ none)
          × (manager_main garbage meanwhile (accepted false size name) t ≡ uncaught t'))
        ⊎ ((m' : G.Memory) × (u : O.Table) × (s : Shared G) × (O.construct_manager m ≡ some m')
            × (manager_main garbage meanwhile (accepted false size name) t ≡ exited 0 u (some s))
            × (O.exists u (or_default default_name name) ≡ false)
            × IsSettled G s
            × ((n : List ℕ) → directory G s n ≡ none))
  unfolding manager_main manage run_manager
  manager_main_lem laws there S garbage meanwhile size name t t' m made runs =
      let segment_name = or_default default_name name in
      elim (Option-cases (O.construct_manager m)) [
        | inl small ↦ inl (small, rw (made, manage, small) refl)
        | inr (m', built) ↦
            let (changes, run) = runs m' built in
            let empty : (k : List ℕ) → (G.find m' k).first ≡ 0 = λ k.
              ap (λ (f : Found). f.first) (there.construct_manager_same m m' built k)
              ∙ there.create_empty (O.remove t segment_name) t' segment_name
                  (or_default default_size size) m made k in
            let (settled, _) =
              Run-directory G laws others S run (new_manager-IsSettled G garbage m' empty) in
            let (after, cleared) =
              reset_all_blocks-Simulates G laws others (meanwhile (new_manager G garbage m'))
                settled in
            inr (
              m',
              O.remove t' segment_name,
              reset_all_blocks G others (meanwhile (new_manager G garbage m')),
              built,
              rw (made, manage, built) refl,
              there.exists-remove t' segment_name,
              after,
              cleared,
            )
      ]
