-- ===== src/Sharedmem/Tests/Slots.antt =====
-- A segment of slots: an object's pointer is its position, counted from 1, and no slot is used twice.
use message_transport.Common.{
  ℕ, zero, suc, ◌≡◌, ◌≢◌, ◌↔◌, inl, inr, refl, sym, ◌∙◌, Bool, true, false, ◌&&◌, Option, none,
  some, List, [], ◌∷◌, length, replicate, length-replicate, ltb, ◌==◌, ==_iff, if◌then◌else◌,
  Bool-cases, arith,
}
use message_transport.Sharedmem.Segment.{Segment, IsSegment, Found}

pub record Slot : Type 0 where
  pub live : Bool
  pub name : List ℕ
  pub content : List ℕ

abbrev pub capacity : ℕ
capacity = 1000

unfoldable pub same_name : List ℕ → List ℕ → Bool
same_name [] [] = true
same_name [] (y ∷ ys) = false
same_name (x ∷ xs) [] = false
same_name (x ∷ xs) (y ∷ ys) = let rest = same_name xs ys in if x == y then rest else false

same_name_iff : (xs ys : List ℕ) → (same_name xs ys ≡ true) ↔ (xs ≡ ys)
unfolding same_name
same_name_iff [] [] = ground arith
same_name_iff [] (y ∷ ys) = ground arith
same_name_iff (x ∷ xs) [] = ground arith
same_name_iff (x ∷ xs) (y ∷ ys) = ground (arith, ==_iff x y, same_name_iff xs ys)

unfoldable pub bump : Found → Found
bump f = if f.first == 0 then f else record f { first = suc f.first }

unfoldable pub find_slot : List Slot → List ℕ → Found
find_slot [] n = record { first = 0; second = 0 }
find_slot (s ∷ ss) n =
    let rest = bump (find_slot ss n) in
    if s.live && same_name s.name n then record { first = 1; second = length s.content } else rest

unfoldable pub add_slot : List Slot → List ℕ → ℕ → List Slot × ℕ
add_slot [] n size = (record { live = true; name = n; content = replicate size 0 } ∷ [], 1)
add_slot (s ∷ ss) n size = let (rest, p) = add_slot ss n size in (s ∷ rest, suc p)

unfoldable pub construct_slot : List Slot → List ℕ → ℕ → Option (List Slot × ℕ)
construct_slot m n size = if ltb capacity size then none else some (add_slot m n size)

unfoldable pub destroy_slot : List Slot → List ℕ → List Slot
destroy_slot [] n = []
destroy_slot (s ∷ ss) n =
    let rest = destroy_slot ss n in
    (if same_name s.name n then record s { live = false } else s) ∷ rest

unfoldable pub slot_bytes : List Slot → ℕ → List ℕ
slot_bytes [] p = []
slot_bytes (s ∷ ss) zero = []
slot_bytes (s ∷ ss) (suc zero) = s.content
slot_bytes (s ∷ ss) (suc (suc p)) = slot_bytes ss (suc p)

unfoldable pub put_slot : List Slot → ℕ → List ℕ → List Slot
put_slot [] p bs = []
put_slot (s ∷ ss) zero bs = s ∷ ss
put_slot (s ∷ ss) (suc zero) bs =
    (if length bs == length s.content then record s { content = bs } else s) ∷ ss
put_slot (s ∷ ss) (suc (suc p)) bs = s ∷ put_slot ss (suc p) bs

abbrev pub slots : Segment
slots = record {
  Memory = List Slot;
  find = find_slot;
  construct = construct_slot;
  destroy = destroy_slot;
  bytes = slot_bytes;
  put_bytes = put_slot;
}

find_absent_lem :
    (m : List Slot) (n : List ℕ) → (find_slot m n).first ≡ 0 → (find_slot m n).second ≡ 0
unfolding find_slot bump
find_absent_lem [] n e = refl
find_absent_lem (s ∷ ss) n e = ground (arith, find_absent_lem ss n)

find-destroy_lem : (m : List Slot) (n : List ℕ) → (find_slot (destroy_slot m n) n).first ≡ 0
unfolding find_slot bump destroy_slot
find-destroy_lem [] n = refl
find-destroy_lem (s ∷ ss) n = elim (Bool-cases (same_name s.name n)) [
  | inl e ↦ rw e (ground (arith, find-destroy_lem ss n))
  | inr e ↦ rw e (ground (arith, e, find-destroy_lem ss n))
]

find-destroy_ne_lem :
    (m : List Slot) (n k : List ℕ) → k ≢ n → find_slot (destroy_slot m n) k ≡ find_slot m k
unfolding find_slot bump destroy_slot
find-destroy_ne_lem [] n k ne = refl
find-destroy_ne_lem (s ∷ ss) n k ne = elim (Bool-cases (same_name s.name n)) [
  | inl e ↦
      let other : same_name s.name k ≡ false = differ s.name e in
      rw (e, other, find-destroy_ne_lem ss n k ne) (ground arith)
  | inr e ↦ rw (e, find-destroy_ne_lem ss n k ne) refl
]
  where
    differ : (xs : List ℕ) → same_name xs n ≡ true → same_name xs k ≡ false
    differ xs e = elim (Bool-cases (same_name xs k)) [
      | inl e' ↦ absurd (ne (sym ((same_name_iff xs k).0 e') ∙ (same_name_iff xs n).0 e))
      | inr e' ↦ e'
    ]

add_positive : (m : List Slot) (n : List ℕ) (size : ℕ) → (add_slot m n size).1 ≢ 0
unfolding add_slot
add_positive [] n size e = absurd (omega arith)
add_positive (s ∷ ss) n size e = absurd (omega arith)

add_new :
    (m : List Slot) (n : List ℕ) (size : ℕ)
    → (find_slot m n).first ≡ 0
    → find_slot (add_slot m n size).0 n ≡ record { first = (add_slot m n size).1; second = size }
unfolding find_slot bump add_slot
add_new [] n size e = rw ((same_name_iff n n).1 refl, length-replicate {A = ℕ} size 0) refl
add_new (s ∷ ss) n size e = elim (Bool-cases (s.live && same_name s.name n)) [
  | inl h ↦ absurd (ground (arith, e, h))
  | inr h ↦
      let before : (find_slot ss n).first ≡ 0 = ground (arith, e, h) in
      rw (h, add_new ss n size before) (ground (arith, add_positive ss n size))
]

pub add_ne :
    (m : List Slot) (n k : List ℕ) (size : ℕ)
    → k ≢ n
    → find_slot (add_slot m n size).0 k ≡ find_slot m k
unfolding find_slot bump add_slot
add_ne [] n k size ne = elim (Bool-cases (same_name n k)) [
  | inl e ↦ absurd (ne (sym ((same_name_iff n k).0 e)))
  | inr e ↦ rw e refl
]
add_ne (s ∷ ss) n k size ne = rw (add_ne ss n k size ne) refl

slot_bytes-shift :
    (s : Slot) (ss : List Slot) (q : ℕ) → q ≢ 0 → slot_bytes (s ∷ ss) (suc q) ≡ slot_bytes ss q
unfolding slot_bytes
slot_bytes-shift s ss zero h = absurd (h refl)
slot_bytes-shift s ss (suc q) h = refl

length-bytes_lem :
    (m : List Slot) (n : List ℕ)
    → (find_slot m n).first ≢ 0
    → length (slot_bytes m (find_slot m n).first) ≡ (find_slot m n).second
unfolding find_slot bump slot_bytes
length-bytes_lem [] n h = absurd (h refl)
length-bytes_lem (s ∷ ss) n h = elim (Bool-cases (s.live && same_name s.name n)) [
  | inl e ↦ rw e refl
  | inr e ↦
      let there : (find_slot ss n).first ≢ 0 = λ z. h (ground (arith, e, z)) in
      let nonzero : ((find_slot ss n).first == 0) ≡ false = ground (arith, there) in
      rw
        (
          e,
          nonzero,
          slot_bytes-shift s ss (find_slot ss n).first there,
          length-bytes_lem ss n there,
        )
        refl
]

nothing_left : (xs : List ℕ) → length xs ≡ 0 → [] ≡ xs
nothing_left [] h = refl
nothing_left (x ∷ xs) h = absurd (ground (arith, h))

bytes-put_lem :
    (m : List Slot) (p : ℕ) (bs : List ℕ)
    → length bs ≡ length (slot_bytes m p)
    → slot_bytes (put_slot m p bs) p ≡ bs
unfolding slot_bytes put_slot
bytes-put_lem [] p bs e = nothing_left bs e
bytes-put_lem (s ∷ ss) zero bs e = nothing_left bs e
bytes-put_lem (s ∷ ss) (suc zero) bs e = rw ((==_iff (length bs) (length s.content)).1 e) refl
bytes-put_lem (s ∷ ss) (suc (suc p)) bs e = bytes-put_lem ss (suc p) bs e

find-put_lem :
    (m : List Slot) (p : ℕ) (bs k : List ℕ) → find_slot (put_slot m p bs) k ≡ find_slot m k
unfolding find_slot bump put_slot
find-put_lem [] p bs k = refl
find-put_lem (s ∷ ss) zero bs k = refl
find-put_lem (s ∷ ss) (suc zero) bs k = elim (Bool-cases (length bs == length s.content)) [
  | inl e ↦ rw (e, (==_iff (length bs) (length s.content)).0 e) refl
  | inr e ↦ rw e refl
]
find-put_lem (s ∷ ss) (suc (suc p)) bs k = rw (find-put_lem ss (suc p) bs k) refl

construct_added :
    (m m' : List Slot) (n : List ℕ) (size p : ℕ)
    → construct_slot m n size ≡ some (m', p)
    → (m' ≡ (add_slot m n size).0) × (p ≡ (add_slot m n size).1)
unfolding construct_slot
construct_added m m' n size p e = ground (arith, e)

construct_new_lem :
    (m m' : List Slot) (n : List ℕ) (size p : ℕ)
    → (find_slot m n).first ≡ 0
    → construct_slot m n size ≡ some (m', p)
    → (p ≢ 0) × (find_slot m' n ≡ record { first = p; second = size })
construct_new_lem m m' n size p absent e =
    let (em, ep) = construct_added m m' n size p e in
    rw (em, ep) (add_positive m n size, add_new m n size absent)

construct_ne_lem :
    (m m' : List Slot) (n k : List ℕ) (size p : ℕ)
    → construct_slot m n size ≡ some (m', p)
    → k ≢ n
    → find_slot m' k ≡ find_slot m k
construct_ne_lem m m' n k size p e ne =
    rw ((construct_added m m' n size p e).0) (add_ne m n k size ne)

pub slots-IsSegment : IsSegment slots
slots-IsSegment = record {
  find_absent = find_absent_lem;
  find-destroy = find-destroy_lem;
  find-destroy_ne = find-destroy_ne_lem;
  construct_new = construct_new_lem;
  construct_ne = construct_ne_lem;
  length-bytes = length-bytes_lem;
  bytes-put_bytes = bytes-put_lem;
  find-put_bytes = find-put_lem;
}
