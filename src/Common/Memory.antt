-- ===== src/Common/Memory.antt =====
-- A block of memory as the list of its bytes: `memcpy` into it and out of it.
use Prim.Native.Nat.{ℕ, zero, suc, ◌+◌, ◌≤◌}
use mathlib.Core.Path.{◌≡◌, refl, ap, sym, ◌∙◌}
use mathlib.Core.List.{List, [], ◌∷◌, ◌++◌}
use native.Mathlib.Omega.{arith}
use message_transport.Common.Lists.{length, take, drop}

-- What lies behind the end of the block is not the block's: a write there is dropped.
abbrev pub overlay : List ℕ → List ℕ → List ℕ
overlay [] m = m
overlay (b ∷ bs) [] = []
overlay (b ∷ bs) (x ∷ m) = b ∷ overlay bs m

-- memcpy(m + p, bs, length bs)
unfoldable pub store : List ℕ → ℕ → List ℕ → List ℕ
store m zero bs = overlay bs m
store [] (suc p) bs = []
store (x ∷ m) (suc p) bs = x ∷ store m p bs

-- memcpy(…, m + p, n)
unfoldable pub load : List ℕ → ℕ → ℕ → List ℕ
load m p n = take n (drop p m)

overlay-append : (a b m : List ℕ) → overlay (a ++ b) m ≡ store (overlay a m) (length a) b
unfolding store
overlay-append [] b m = refl
overlay-append (x ∷ a) [] [] = refl
overlay-append (x ∷ a) (y ∷ b) [] = refl
overlay-append (x ∷ a) b (z ∷ m) = ap (◌∷◌ x) (overlay-append a b m)

store-nil_memory : (p : ℕ) (bs : List ℕ) → store [] p bs ≡ []
unfolding store
store-nil_memory zero [] = refl
store-nil_memory zero (b ∷ bs) = refl
store-nil_memory (suc p) bs = refl

-- Two copies, one behind the other, are one copy.
pub store-append :
    (m : List ℕ) (p : ℕ) (a b : List ℕ) → store m p (a ++ b) ≡ store (store m p a) (p + length a) b
unfolding store
store-append m zero a b =
    let e : 0 + length a ≡ length a = omega arith in rw e (overlay-append a b m)
store-append [] (suc p) a b = sym (store-nil_memory (suc p + length a) b)
store-append (x ∷ m) (suc p) a b =
    let e : suc p + length a ≡ suc (p + length a) = omega arith in
    rw e (ap (◌∷◌ x) (store-append m p a b))

length-overlay : (bs m : List ℕ) → length (overlay bs m) ≡ length m
length-overlay [] m = refl
length-overlay (b ∷ bs) [] = refl
length-overlay (b ∷ bs) (x ∷ m) = ap suc (length-overlay bs m)

pub length-store : (m : List ℕ) (p : ℕ) (bs : List ℕ) → length (store m p bs) ≡ length m
unfolding store
length-store m zero bs = length-overlay bs m
length-store [] (suc p) bs = refl
length-store (x ∷ m) (suc p) bs = ap suc (length-store m p bs)

pub store-nil : (m : List ℕ) (p : ℕ) → store m p [] ≡ m
unfolding store
store-nil m zero = refl
store-nil [] (suc p) = refl
store-nil (x ∷ m) (suc p) = ap (◌∷◌ x) (store-nil m p)

overlay-split : (bs m : List ℕ) → length bs ≤ length m → overlay bs m ≡ bs ++ drop (length bs) m
overlay-split [] m h = refl
overlay-split (b ∷ bs) [] h = absurd (omega arith)
overlay-split (b ∷ bs) (x ∷ m) h = ap (◌∷◌ b) (overlay-split bs m (omega arith))

-- What a copy left at its place, and behind it.
pub drop-store :
    (m : List ℕ) (p : ℕ) (bs : List ℕ)
    → p + length bs ≤ length m
    → drop p (store m p bs) ≡ bs ++ drop (p + length bs) m
unfolding store
drop-store m zero bs h =
    let e : 0 + length bs ≡ length bs = omega arith in rw e (overlay-split bs m (omega arith))
drop-store [] (suc p) bs h = absurd (omega arith)
drop-store (x ∷ m) (suc p) bs h =
    let e : suc p + length bs ≡ suc (p + length bs) = omega arith in
    rw e (drop-store m p bs (omega arith))

-- Nothing in front of the copy changes.
pub take-store : (m : List ℕ) (q p : ℕ) (bs : List ℕ) → q ≤ p → take q (store m p bs) ≡ take q m
unfolding store
take-store m zero p bs h = refl
take-store m (suc q) zero bs h = absurd (omega arith)
take-store [] (suc q) (suc p) bs h = refl
take-store (x ∷ m) (suc q) (suc p) bs h = ap (◌∷◌ x) (take-store m q p bs (omega arith))

-- Nothing from `e` on changes, where the copy ends at `e` or before.
overlay-frame : (e : ℕ) (bs m : List ℕ) → length bs ≤ e → drop e (overlay bs m) ≡ drop e m
overlay-frame e [] m h = refl
overlay-frame e (b ∷ bs) [] h = refl
overlay-frame zero (b ∷ bs) (x ∷ m) h = absurd (omega arith)
overlay-frame (suc e) (b ∷ bs) (x ∷ m) h = overlay-frame e bs m (omega arith)

pub store-frame :
    (m : List ℕ) (p e : ℕ) (bs : List ℕ) → p + length bs ≤ e → drop e (store m p bs) ≡ drop e m
unfolding store
store-frame m zero e bs h = overlay-frame e bs m (omega arith)
store-frame [] (suc p) e bs h = refl
store-frame (x ∷ m) (suc p) zero bs h = absurd (omega arith)
store-frame (x ∷ m) (suc p) (suc e) bs h = store-frame m p e bs (omega arith)

-- Two blocks agree outside the bytes from `lo` up to `hi`.
pub record Frame (lo hi : ℕ) (m m' : List ℕ) : Type 0 where
  pub same_length : length m' ≡ length m
  pub same_front : take lo m' ≡ take lo m
  pub same_back : drop hi m' ≡ drop hi m

pub Frame-refl : (lo hi : ℕ) (m : List ℕ) → Frame lo hi m m
Frame-refl lo hi m = record { same_length = refl; same_front = refl; same_back = refl }

pub Frame-trans : {lo hi : ℕ} {a b c : List ℕ} → Frame lo hi a b → Frame lo hi b c → Frame lo hi a c
Frame-trans f g = record {
  same_length = g.same_length ∙ f.same_length;
  same_front = g.same_front ∙ f.same_front;
  same_back = g.same_back ∙ f.same_back;
}

pub store-Frame :
    (lo hi : ℕ) (m : List ℕ) (p : ℕ) (bs : List ℕ)
    → lo ≤ p
    → p + length bs ≤ hi
    → Frame lo hi m (store m p bs)
store-Frame lo hi m p bs h k = record {
  same_length = length-store m p bs;
  same_front = take-store m lo p bs h;
  same_back = store-frame m p hi bs k;
}
