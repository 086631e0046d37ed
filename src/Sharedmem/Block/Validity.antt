-- ===== src/Sharedmem/Block/Validity.antt =====
-- When the table and the segment agree.
use message_transport.Common.{
  ℕ, zero, suc, ◌+◌, ◌^◌, ◌≤◌, ◌<◌, ◌≡◌, ◌≢◌, inl, inr, refl, ◌∙◌, fun_ext, Bool, true, false, none,
  some, List, ◌==◌, ==_iff, Bool-cases, ℕ_discrete, arith,
}
use message_transport.Sharedmem.Segment.{Segment, Found}
use message_transport.Sharedmem.Descriptor.{Descriptor, key}
use message_transport.Sharedmem.Block.State.{num_block, first_index, update, Shared, find_block}

-- The first index that passes, and the indices in front of it; or that none passes.
pub first_index-some :
    (test : ℕ → Bool) (n i j : ℕ)
    → first_index test n i ≡ some j
    → (test j ≡ true) × (i ≤ j) × (j < i + n)
unfolding first_index
first_index-some test zero i j e = cc
first_index-some test (suc n) i j e = ground (arith, first_index-some test n (suc i) j)

pub first_index-none :
    (test : ℕ → Bool) (n i j : ℕ) → first_index test n i ≡ none → i ≤ j → j < i + n → test j ≡ false
unfolding first_index
first_index-none test zero i j e h k = absurd (omega arith)
first_index-none test (suc n) i j e h k = elim (ℕ_discrete i j) [
  | yes same ↦ rw (← same) (ground arith)
  | no other ↦
      ground (arith, first_index-none test n (suc i) j (ground arith) (omega arith) (omega arith))
]

pub first_index-before :
    (test : ℕ → Bool) (n i j k : ℕ) → first_index test n i ≡ some j → i ≤ k → k < j → test k ≡ false
unfolding first_index
first_index-before test zero i j k e h l = cc
first_index-before test (suc n) i j k e h l = elim (ℕ_discrete i k) [
  | yes same ↦ rw (← same) (ground arith)
  | no other ↦ ground (arith, first_index-before test n (suc i) j k (ground arith) (omega arith) l)
]

module _ (G : Segment) where
  -- What an active entry says of its object.
  pub record Backed (d : Descriptor) (f : Found) : Type 0 where
    pub present : f.first ≢ 0
    pub counted : f.second ≡ d.allocated_
    pub sized : d.size_ ≤ d.allocated_
    pub narrow : d.allocated_ < 2 ^ 32

  -- Every active entry has an object of the size that it records, no two have the same name, a free
  -- entry records no memory, and every object belongs to an active entry.
  pub record IsValid (s : Shared G) : Type 0 where
    pub backed :
        (i : ℕ)
        → i < num_block
        → (s.descriptors i).active_ ≡ true
        → Backed (s.descriptors i) (find_block G i s)
    pub distinct :
        (i j : ℕ)
        → i < num_block
        → j < num_block
        → (s.descriptors i).active_ ≡ true
        → (s.descriptors j).active_ ≡ true
        → key (s.descriptors i) ≡ key (s.descriptors j)
        → i ≡ j
    pub idle :
        (i : ℕ)
        → i < num_block
        → (s.descriptors i).active_ ≡ false
        → (s.descriptors i).allocated_ ≡ 0
    pub owned :
        (n : List ℕ)
        → (G.find s.segment n).first ≢ 0
        → (i : ℕ) × (i < num_block)
          × ((s.descriptors i).active_ ≡ true)
          × (key (s.descriptors i) ≡ n)

pub update_same {ℓ} : {A : Type ℓ} (f : ℕ → A) (i : ℕ) (a : A) → update f i a i ≡ a
update_same f i a = rw ((==_iff i i).1 refl)

pub update_ne {ℓ} : {A : Type ℓ} (f : ℕ → A) (i j : ℕ) (a : A) → j ≢ i → update f i a j ≡ f j
update_ne f i j a h = elim (Bool-cases (j == i)) [
  | inl e ↦ absurd (h ((==_iff j i).0 e))
  | inr e ↦ rw e
]

pub update_twice {ℓ} :
    {A : Type ℓ} (f : ℕ → A) (i : ℕ) (a b : A) → b ≡ f i → update (update f i a) i b ≡ f
update_twice f i a b e = fun_ext λ j. elim (ℕ_discrete j i) [
  | yes same ↦ rw same (update_same (update f i a) i b ∙ e)
  | no other ↦ update_ne (update f i a) i j b other ∙ update_ne f i j a other
]
