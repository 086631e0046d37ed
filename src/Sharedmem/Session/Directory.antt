-- ===== src/Sharedmem/Session/Directory.antt =====
-- The abstract view of the table: which names have a block, and how many bytes of it are in use.
use message_transport.Common.{
  ℕ, ◌<◌, ◌≡◌, ◌≢◌, ◌↔◌, ◌⊎◌, inl, inr, sym, ap, ◌∙◌, Bool, true, false, Option, none, some, List,
  Option-cases, ℕ_discrete, arith,
}
use mathlib.Core.Logic.{ite}
use message_transport.Sharedmem.Segment.{Segment}
use message_transport.Sharedmem.Descriptor.{Descriptor, key}
use message_transport.Sharedmem.Block.State.{num_block, first_index, Shared}
use message_transport.Sharedmem.Block.Validity.{IsValid, first_index-some, first_index-none}

abbrev pub Directory : Type 0
Directory = List ℕ → Option ℕ

pub Name-discrete : Discrete (List ℕ)
Name-discrete = hlevel ℕ_discrete

-- What a call may do to a directory.
pub data Change : Type 0 where
  stored : List ℕ → ℕ → Change
  dropped : List ℕ → Change
  emptied : Change
  kept : Change

unfoldable pub apply : Change → Directory → Directory
apply (stored name size) d n = ite (Name-discrete n name) (some size) (d n)
apply (dropped name) d n = ite (Name-discrete n name) none (d n)
apply emptied d n = none
apply kept d n = d n

module _ (G : Segment) where
  abbrev pub holds : List ℕ → Shared G → ℕ → Bool
  holds n s i = ite (Name-discrete (key (s.descriptors i)) n) (s.descriptors i).active_ false

  unfoldable pub directory : Shared G → Directory
  directory s n = elim (first_index (holds n s) num_block 0) [
    | none ↦ none
    | some i ↦ some (s.descriptors i).size_
  ]

  holds_iff :
      (n : List ℕ) (s : Shared G) (i : ℕ)
      → (holds n s i ≡ true) ↔ (((s.descriptors i).active_ ≡ true) × (key (s.descriptors i) ≡ n))
  holds_iff n s i = ground arith

  -- An entry with the name in a valid table is the one that the directory shows.
  pub directory-some :
      (s : Shared G) (i : ℕ) (n : List ℕ)
      → IsValid G s
      → i < num_block
      → (s.descriptors i).active_ ≡ true
      → key (s.descriptors i) ≡ n
      → directory s n ≡ some (s.descriptors i).size_
  unfolding directory
  directory-some s i n valid lt a k = elim (Option-cases (first_index (holds n s) num_block 0)) [
    | inl missing ↦ cc (
      first_index-none (holds n s) num_block 0 i missing (omega arith) lt,
      (holds_iff n s i).1 (a, k),
    )
    | inr (j, found) ↦
        let (hit, _, ltj) = first_index-some (holds n s) num_block 0 j found in
        let (aj, kj) = (holds_iff n s j).0 hit in
        rw (directory, found, valid.distinct i j lt ltj a aj (k ∙ sym kj))
  ]

  pub directory-none :
      (s : Shared G) (n : List ℕ)
      → ((i : ℕ) → i < num_block → (s.descriptors i).active_ ≡ true → key (s.descriptors i) ≢ n)
      → directory s n ≡ none
  unfolding directory
  directory-none s n nobody = elim (Option-cases (first_index (holds n s) num_block 0)) [
    | inl missing ↦ rw (directory, missing)
    | inr (j, found) ↦
        let (hit, _, ltj) = first_index-some (holds n s) num_block 0 j found in
        let (aj, kj) = (holds_iff n s j).0 hit in absurd (nobody j ltj aj kj)
  ]

  pub directory_cases :
      (s : Shared G) (n : List ℕ)
      → ((i : ℕ) × (i < num_block)
          × ((s.descriptors i).active_ ≡ true)
          × (key (s.descriptors i) ≡ n))
        ⊎ ((i : ℕ) → i < num_block → (s.descriptors i).active_ ≡ true → key (s.descriptors i) ≢ n)
  directory_cases s n = elim (Option-cases (first_index (holds n s) num_block 0)) [
    | inl missing ↦ inr (λ i lt a k. cc (
      first_index-none (holds n s) num_block 0 i missing (omega arith) lt,
      (holds_iff n s i).1 (a, k),
    ))
    | inr (j, found) ↦
        let (hit, _, ltj) = first_index-some (holds n s) num_block 0 j found in
        let (aj, kj) = (holds_iff n s j).0 hit in inl (j, ltj, aj, kj)
  ]

  -- Two valid tables that differ in one entry, which has no name but `name`, agree on other names.
  pub directory_elsewhere :
      (s t : Shared G) (h : ℕ) (name n : List ℕ)
      → IsValid G s
      → IsValid G t
      → ((j : ℕ) → j ≢ h → t.descriptors j ≡ s.descriptors j)
      → ((s.descriptors h).active_ ≡ true → key (s.descriptors h) ≡ name)
      → ((t.descriptors h).active_ ≡ true → key (t.descriptors h) ≡ name)
      → n ≢ name
      → directory t n ≡ directory s n
  directory_elsewhere s t h name n valid_s valid_t elsewhere was is ne =
      elim (directory_cases s n) [
        | inl (i, lt, a, k) ↦
            let other : i ≢ h =
              λ e. ne (sym k ∙ ap (λ (x : ℕ). key (s.descriptors x)) e ∙ was (rw e at a)) in
            let same = elsewhere i other in
            directory-some t i n valid_t lt (rw (← same) at a) (ap key same ∙ k)
            ∙ ap (λ (d : Descriptor). some d.size_) same
            ∙ sym (directory-some s i n valid_s lt a k)
        | inr nobody ↦
            directory-none t n (λ j lt a k. elim (ℕ_discrete j h) [
              | yes e ↦ ne (sym k ∙ ap (λ (x : ℕ). key (t.descriptors x)) e ∙ is (rw e at a))
              | no other ↦
                  let same = elsewhere j other in nobody j lt (rw same at a) (sym (ap key same) ∙ k)
            ])
            ∙ sym (directory-none s n nobody)
      ]
