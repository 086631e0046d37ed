-- ===== src/Sharedmem/Block/Change.antt =====
-- The changes of one entry that keep table and segment in agreement.
use message_transport.Common.{ℕ, ◌<◌, ◌≡◌, ◌≢◌, sym, ap, ◌∙◌, true, false, List, ℕ_discrete}
use message_transport.Sharedmem.Segment.{Segment}
use message_transport.Sharedmem.Descriptor.{Descriptor, key}
use message_transport.Sharedmem.Block.State.{num_block, Shared, set_descriptor, find_block}
use message_transport.Sharedmem.Block.Validity.{IsValid, Backed, update_same, update_ne}

Names-discrete : Discrete (List ℕ)
Names-discrete = hlevel ℕ_discrete

module _ (G : Segment) {s : Shared G} (valid : IsValid G s) (h : ℕ) (inside : h < num_block)
    (d : Descriptor) (m : G.Memory) where
  abbrev changed : Shared G
  changed = set_descriptor G h d (record s { segment = m })

  same_entry : (P : Descriptor → Type 0) → P d → P (changed.descriptors h)
  same_entry P p = rw (update_same s.descriptors h d) p

  other_entry :
      (P : Descriptor → Type 0) (i : ℕ) → i ≢ h → P (s.descriptors i) → P (changed.descriptors i)
  other_entry P i ne p = rw (update_ne s.descriptors h i d ne) p

  entry_there : (P : Descriptor → Type 0) → P (changed.descriptors h) → P d
  entry_there P p = rw (update_same s.descriptors h d) at p

  entry_before :
      (P : Descriptor → Type 0) (i : ℕ) → i ≢ h → P (changed.descriptors i) → P (s.descriptors i)
  entry_before P i ne p = rw (update_ne s.descriptors h i d ne) at p

  -- Filling an entry, or changing one that keeps its name.
  module _ (active : d.active_ ≡ true) (backed : Backed G d (G.find m (key d)))
      (kept : (n : List ℕ) → n ≢ key d → G.find m n ≡ G.find s.segment n)
      (only : (j : ℕ)
        → j < num_block
        → j ≢ h
        → (s.descriptors j).active_ ≡ true
        → key (s.descriptors j) ≢ key d)
      (same_name : (s.descriptors h).active_ ≡ true → key (s.descriptors h) ≡ key d) where
    fill-Backed :
        (i : ℕ)
        → i < num_block
        → (changed.descriptors i).active_ ≡ true
        → Backed G (changed.descriptors i) (find_block G i changed)
    fill-Backed i lt a = elim (ℕ_discrete i h) [
      | yes e ↦ rw e (same_entry (λ x. Backed G x (G.find m (key x))) backed)
      | no ne ↦
          let a' = entry_before (λ x. x.active_ ≡ true) i ne a in
          other_entry (λ x. Backed G x (G.find m (key x))) i ne
            (rw (kept (key (s.descriptors i)) (only i lt ne a')) (valid.backed i lt a'))
    ]

    fill_distinct :
        (i j : ℕ)
        → i < num_block
        → j < num_block
        → (changed.descriptors i).active_ ≡ true
        → (changed.descriptors j).active_ ≡ true
        → key (changed.descriptors i) ≡ key (changed.descriptors j)
        → i ≡ j
    fill_distinct i j li lj ai aj e = elim (ℕ_discrete i h) [
      | yes ei ↦ elim (ℕ_discrete j h) [
        | yes ej ↦ ei ∙ sym ej
        | no nj ↦ absurd (
            only j lj nj (entry_before (λ x. x.active_ ≡ true) j nj aj)
              (sym (rw (ei, update_same s.descriptors h d, update_ne s.descriptors h j d nj) at e)))
      ]
      | no ni ↦ elim (ℕ_discrete j h) [
        | yes ej ↦ absurd (
            only i li ni (entry_before (λ x. x.active_ ≡ true) i ni ai)
              (rw (ej, update_same s.descriptors h d, update_ne s.descriptors h i d ni) at e))
        | no nj ↦
            valid.distinct i j li lj (entry_before (λ x. x.active_ ≡ true) i ni ai)
              (entry_before (λ x. x.active_ ≡ true) j nj aj)
              (rw (update_ne s.descriptors h i d ni, update_ne s.descriptors h j d nj) at e)
      ]
    ]

    fill_idle :
        (i : ℕ)
        → i < num_block
        → (changed.descriptors i).active_ ≡ false
        → (changed.descriptors i).allocated_ ≡ 0
    fill_idle i lt a = elim (ℕ_discrete i h) [
      | yes e ↦ cc (active, entry_there (λ x. x.active_ ≡ false) (rw e at a))
      | no ne ↦
          other_entry (λ x. x.allocated_ ≡ 0) i ne
            (valid.idle i lt (entry_before (λ x. x.active_ ≡ false) i ne a))
    ]

    fill_owned :
        (n : List ℕ)
        → (G.find m n).first ≢ 0
        → (i : ℕ) × (i < num_block)
          × ((changed.descriptors i).active_ ≡ true)
          × (key (changed.descriptors i) ≡ n)
    fill_owned n there = elim (Names-discrete n (key d)) [
      | yes e ↦ (
        h,
        inside,
        same_entry (λ x. x.active_ ≡ true) active,
        same_entry (λ x. key x ≡ n) (sym e),
      )
      | no ne ↦
          let (i, lt, a, k) = valid.owned n (rw (kept n ne) at there) in
          let other : i ≢ h = λ e. ne (sym k ∙ same i e a) in
          (
            i,
            lt,
            other_entry (λ x. x.active_ ≡ true) i other a,
            other_entry (λ x. key x ≡ n) i other k,
          )
    ]
      where
        same : (i : ℕ) → i ≡ h → (s.descriptors i).active_ ≡ true → key (s.descriptors i) ≡ key d
        same i e a = rw e (same_name (rw e at a))

    pub fill-IsValid : IsValid G changed
    fill-IsValid = record {
      backed = fill-Backed;
      distinct = fill_distinct;
      idle = fill_idle;
      owned = fill_owned;
    }

  -- Giving an entry up, with its object.
  module _ (was_active : (s.descriptors h).active_ ≡ true) (free : d.active_ ≡ false)
      (empty : d.allocated_ ≡ 0) (gone : (G.find m (key (s.descriptors h))).first ≡ 0)
      (kept : (n : List ℕ) → n ≢ key (s.descriptors h) → G.find m n ≡ G.find s.segment n) where
    not_freed : (i : ℕ) → (changed.descriptors i).active_ ≡ true → i ≢ h
    not_freed i a e = cc (free, entry_there (λ x. x.active_ ≡ true) (rw e at a))

    drop-Backed :
        (i : ℕ)
        → i < num_block
        → (changed.descriptors i).active_ ≡ true
        → Backed G (changed.descriptors i) (find_block G i changed)
    drop-Backed i lt a =
        let ne = not_freed i a in
        let a' = entry_before (λ x. x.active_ ≡ true) i ne a in
        other_entry (λ x. Backed G x (G.find m (key x))) i ne
          (rw
            (kept (key (s.descriptors i)) (λ e. ne (valid.distinct i h lt inside a' was_active e)))
            (valid.backed i lt a'))

    drop_distinct :
        (i j : ℕ)
        → i < num_block
        → j < num_block
        → (changed.descriptors i).active_ ≡ true
        → (changed.descriptors j).active_ ≡ true
        → key (changed.descriptors i) ≡ key (changed.descriptors j)
        → i ≡ j
    drop_distinct i j li lj ai aj e =
        let ni = not_freed i ai in
        let nj = not_freed j aj in
        valid.distinct i j li lj (entry_before (λ x. x.active_ ≡ true) i ni ai)
          (entry_before (λ x. x.active_ ≡ true) j nj aj)
          (rw (update_ne s.descriptors h i d ni, update_ne s.descriptors h j d nj) at e)

    drop_idle :
        (i : ℕ)
        → i < num_block
        → (changed.descriptors i).active_ ≡ false
        → (changed.descriptors i).allocated_ ≡ 0
    drop_idle i lt a = elim (ℕ_discrete i h) [
      | yes e ↦ rw e (same_entry (λ x. x.allocated_ ≡ 0) empty)
      | no ne ↦
          other_entry (λ x. x.allocated_ ≡ 0) i ne
            (valid.idle i lt (entry_before (λ x. x.active_ ≡ false) i ne a))
    ]

    drop_owned :
        (n : List ℕ)
        → (G.find m n).first ≢ 0
        → (i : ℕ) × (i < num_block)
          × ((changed.descriptors i).active_ ≡ true)
          × (key (changed.descriptors i) ≡ n)
    drop_owned n there =
        let other : n ≢ key (s.descriptors h) = λ e. there (rw e gone) in
        let (i, lt, a, k) = valid.owned n (rw (kept n other) at there) in
        let ne : i ≢ h = λ e. other (sym k ∙ ap (λ (x : ℕ). key (s.descriptors x)) e) in
        (i, lt, other_entry (λ x. x.active_ ≡ true) i ne a, other_entry (λ x. key x ≡ n) i ne k)

    pub drop-IsValid : IsValid G changed
    drop-IsValid = record {
      backed = drop-Backed;
      distinct = drop_distinct;
      idle = drop_idle;
      owned = drop_owned;
    }
