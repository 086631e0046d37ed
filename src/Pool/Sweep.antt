-- ===== src/Pool/Sweep.antt =====
-- Which elements `remove_if` keeps, while the objects that it drops release others.
use message_transport.Common.{
  ℕ, ◌+◌, ◌≤◌, ◌≡◌, ◌≢◌, ◌⊎◌, inl, inr, refl, sym, ap, ◌∙◌, subst, true, false, List, [], ◌∷◌, ◌++◌,
  ◌==◌, ==_iff, Bool-cases, arith,
}
use message_transport.Pool.State.{
  count, Sweep, Destructor, release, release_all, use_count, ptr_not_active, keep, remove_if,
}

count-append : (x : ℕ) (xs ys : List ℕ) → count x (xs ++ ys) ≡ count x xs + count x ys
unfolding count
count-append x [] ys = omega arith
count-append x (y ∷ xs) ys = ground (arith, count-append x xs ys)

count_self : (y : ℕ) (ys : List ℕ) → 1 ≤ count y (y ∷ ys)
unfolding count
count_self y ys = rw ((==_iff y y).1 refl) (omega arith)

module _ (destroy : Destructor) (lowers : (h : ℕ) (o : ℕ → ℕ) (y : ℕ) → destroy h o y ≤ o y) (x : ℕ)
    (real : x ≢ 0) where
  release-le : (h : ℕ) (o : ℕ → ℕ) → release destroy h o x ≤ o x
  unfolding release
  release-le h o = ground (arith, lowers h o x)

  pub release_all-le : (hs : List ℕ) (o : ℕ → ℕ) → release_all destroy hs o x ≤ o x
  unfolding release_all
  release_all-le [] o = omega arith
  release_all-le (h ∷ hs) o = omega (arith, release_all-le hs (release destroy h o), release-le h o)

  keep_kept :
      (y : ℕ) (o : ℕ → ℕ) (kept gaps : List ℕ)
      → count x (keep destroy y o kept gaps).kept ≡ count x kept + count x (y ∷ [])
  unfolding keep
  keep_kept y o kept [] = count-append x kept (y ∷ [])
  keep_kept y o kept (gap ∷ gaps) = count-append x kept (y ∷ [])

  keep_owners :
      (y : ℕ) (o : ℕ → ℕ) (kept gaps : List ℕ) → (keep destroy y o kept gaps).owners x ≤ o x
  unfolding keep
  keep_owners y o kept [] = omega arith
  keep_owners y o kept (gap ∷ gaps) = release-le gap o

  keep_gaps :
      (y : ℕ) (o : ℕ → ℕ) (kept gaps : List ℕ)
      → count x (keep destroy y o kept gaps).gaps ≤ count x gaps
  unfolding keep count
  keep_gaps y o kept [] = omega arith
  keep_gaps y o kept (gap ∷ gaps) = ground (arith, real, count-append x gaps (0 ∷ []))

  count-cons : (y : ℕ) (ys : List ℕ) → count x (y ∷ ys) ≡ count x (y ∷ []) + count x ys
  count-cons y ys = count-append x (y ∷ []) ys

  -- Which test an element failed.
  dropped_uses :
      (w : Sweep) (rest : List ℕ) (y : ℕ) → ptr_not_active w rest y ≡ true → use_count w rest y ≤ 1
  unfolding ptr_not_active
  dropped_uses w rest y e = ground (arith, e)

  kept_uses :
      (w : Sweep) (rest : List ℕ) (y : ℕ) → ptr_not_active w rest y ≡ false → 2 ≤ use_count w rest y
  unfolding ptr_not_active
  kept_uses w rest y e = ground (arith, e)

  pub remove_if-owners : (xs : List ℕ) (w : Sweep) → (remove_if destroy xs w).owners x ≤ w.owners x
  unfolding remove_if
  remove_if-owners [] w = omega arith
  remove_if-owners (y ∷ xs) w = elim (Bool-cases (ptr_not_active w (y ∷ xs) y)) [
    | inl e ↦ rw (e, remove_if) (remove_if-owners xs (record w { gaps = w.gaps ++ (y ∷ []) }))
    | inr e ↦
        let kept = keep destroy y w.owners w.kept w.gaps in
        let rest = remove_if-owners xs kept in
        let here = keep_owners y w.owners w.kept w.gaps in
        rw (e, remove_if) (omega (arith, rest, here))
  ]

  pub remove_if-le :
      (xs : List ℕ) (w : Sweep)
      → count x (remove_if destroy xs w).kept ≤ count x w.kept + count x xs
  unfolding remove_if
  remove_if-le [] w = omega arith
  remove_if-le (y ∷ xs) w = elim (Bool-cases (ptr_not_active w (y ∷ xs) y)) [
    | inl e ↦
        let rest = remove_if-le xs (record w { gaps = w.gaps ++ (y ∷ []) }) in
        rw (e, remove_if) (omega (arith, rest, count-cons y xs))
    | inr e ↦
        let rest = remove_if-le xs (keep destroy y w.owners w.kept w.gaps) in
        let here = keep_kept y w.owners w.kept w.gaps in
        rw (e, remove_if) (omega (arith, rest, here, count-cons y xs))
  ]

  -- The last of two entries, or an entry beside an owner, is not dropped.
  dropped_alone :
      (xs : List ℕ) (w : Sweep) (y : ℕ)
      → ptr_not_active w (y ∷ xs) y ≡ true
      → x ≡ y
      → ¬ ((2 ≤ count x w.kept + count x (y ∷ xs)) ⊎ (1 ≤ w.owners x))
  unfolding use_count
  dropped_alone xs w y e same used =
      let few : use_count w (y ∷ xs) x ≤ 1 =
        subst (λ (z : ℕ). use_count w (y ∷ xs) z ≤ 1) (sym same) (dropped_uses w (y ∷ xs) y e) in
      let one : 1 ≤ count x (y ∷ xs) = rw same (count_self y xs) in
      elim used [ inl h ↦ omega (arith, few, h) | inr h ↦ omega (arith, few, h, one) ]

  -- An object with an owner at the end, or with two entries, keeps its entries.
  pub remove_if-keeps :
      (xs : List ℕ) (w : Sweep)
      → (2 ≤ count x w.kept + count x xs) ⊎ (1 ≤ (remove_if destroy xs w).owners x)
      → count x (remove_if destroy xs w).kept ≡ count x w.kept + count x xs
  unfolding remove_if count
  remove_if-keeps [] w used = omega arith
  remove_if-keeps (y ∷ xs) w used = elim (Bool-cases (ptr_not_active w (y ∷ xs) y)) [
    | inl e ↦
        let w' = record w { gaps = w.gaps ++ (y ∷ []) } in
        let step : remove_if destroy (y ∷ xs) w ≡ remove_if destroy xs w' =
          rw (e, remove_if) refl in
        elim (Bool-cases (x == y)) [
          | inl same ↦ absurd (
              dropped_alone xs w y e ((==_iff x y).0 same) (elim used [
                | inl h ↦ inl h
                | inr h ↦ let less = remove_if-owners (y ∷ xs) w in inr (omega (arith, h, less))
              ]))
          | inr other ↦
              let none_here : count x (y ∷ xs) ≡ count x xs = rw (count, other) refl in
              ap (λ (v : Sweep). count x v.kept) step
              ∙ remove_if-keeps xs w' (elim used [
                | inl h ↦ inl (omega (arith, h, none_here))
                | inr h ↦ inr (subst (λ (v : Sweep). 1 ≤ v.owners x) step h)
              ])
              ∙ ap (λ (n : ℕ). count x w.kept + n) (sym none_here)
        ]
    | inr e ↦
        let w' = keep destroy y w.owners w.kept w.gaps in
        let step : remove_if destroy (y ∷ xs) w ≡ remove_if destroy xs w' =
          rw (e, remove_if) refl in
        let here = keep_kept y w.owners w.kept w.gaps in
        let rest = remove_if-keeps xs w' (elim used [
          | inl h ↦ inl (omega (arith, h, here, count-cons y xs))
          | inr h ↦ inr (subst (λ (v : Sweep). 1 ≤ v.owners x) step h)
        ]) in
        ap (λ (v : Sweep). count x v.kept) step ∙ omega (arith, rest, here, count-cons y xs)
  ]

  not_kept :
      (xs : List ℕ) (w : Sweep) (y : ℕ)
      → ptr_not_active w (y ∷ xs) y ≡ false
      → w.owners x ≡ 0
      → count x w.kept ≡ 0
      → count x w.gaps ≡ 0
      → count x (y ∷ xs) ≤ 1
      → (x == y) ≡ false
  unfolding use_count
  not_kept xs w y e free none_kept none_left few = elim (Bool-cases (x == y)) [
    | inr other ↦ other
    | inl same ↦
        let many : 2 ≤ use_count w (y ∷ xs) x =
          subst (λ (z : ℕ). 2 ≤ use_count w (y ∷ xs) z) (sym ((==_iff x y).0 same))
            (kept_uses w (y ∷ xs) y e) in
        absurd (omega (arith, many, free, none_kept, none_left, few))
  ]

  -- An object that nobody owns outside, with one entry, is dropped.
  pub remove_if-drops :
      (xs : List ℕ) (w : Sweep)
      → w.owners x ≡ 0
      → count x w.kept ≡ 0
      → count x w.gaps ≡ 0
      → count x xs ≤ 1
      → count x (remove_if destroy xs w).kept ≡ 0
  unfolding remove_if count use_count
  remove_if-drops [] w free none_kept none_left few = none_kept
  remove_if-drops (y ∷ xs) w free none_kept none_left few =
      elim (Bool-cases (ptr_not_active w (y ∷ xs) y)) [
        | inl e ↦
            let w' = record w { gaps = w.gaps ++ (y ∷ []) } in
            let step : remove_if destroy (y ∷ xs) w ≡ remove_if destroy xs w' =
              rw (e, remove_if) refl in
            ap (λ (v : Sweep). count x v.kept) step ∙ elim (Bool-cases (x == y)) [
              | inl same ↦
                  let le = remove_if-le xs w' in
                  let here : count x (y ∷ xs) ≡ count x xs + 1 = rw (count, same) refl in
                  omega (arith, le, here, few, none_kept)
              | inr other ↦
                  let none_here : count x (y ∷ xs) ≡ count x xs = rw (count, other) refl in
                  let no_gap : count x (w.gaps ++ (y ∷ [])) ≡ 0 =
                    count-append x w.gaps (y ∷ []) ∙ rw (count, other, none_left) refl in
                  remove_if-drops xs w' free none_kept no_gap (omega (arith, few, none_here))
            ]
        | inr e ↦
            let w' = keep destroy y w.owners w.kept w.gaps in
            let step : remove_if destroy (y ∷ xs) w ≡ remove_if destroy xs w' =
              rw (e, remove_if) refl in
            let other : (x == y) ≡ false = not_kept xs w y e free none_kept none_left few in
            let none_here : count x (y ∷ xs) ≡ count x xs = rw (count, other) refl in
            let none_one : count x (y ∷ []) ≡ 0 = rw (count, other) refl in
            let kept = keep_kept y w.owners w.kept w.gaps in
            let gaps = keep_gaps y w.owners w.kept w.gaps in
            let owners = keep_owners y w.owners w.kept w.gaps in
            ap (λ (v : Sweep). count x v.kept) step
            ∙ remove_if-drops xs w' (omega (arith, owners, free))
                (omega (arith, kept, none_one, none_kept)) (omega (arith, gaps, none_left))
                (omega (arith, few, none_here))
      ]
