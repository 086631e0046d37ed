-- ===== src/Sharedmem/Clients/Totals.antt =====
-- How many threads are registered, and how many hold a mutex.
use message_transport.Common.{
  ℕ, zero, suc, ◌+◌, ◌≤◌, ◌≡◌, refl, ap, ◌∙◌, Bool, true, false, List, [], ◌∷◌, ◌++◌, map,
  replicate, arith,
}
use message_transport.Sharedmem.Clients.Phases.{
  Phase, rest, joining, reading, left, checked, writing, finishing, waiting_inside, woken_inside,
  resizing, managing, elsewhere, Notice, hear, System, Step,
}

-- Registered with the block; with the manager; in possession of the block's mutex; of the manager's.
unfoldable pub in_block : Phase → ℕ
in_block joining = 1
in_block reading = 1
in_block left = 1
in_block p = 0

unfoldable pub in_manager : Phase → ℕ
in_manager reading = 1
in_manager (writing w) = 1
in_manager elsewhere = 1
in_manager p = 0

unfoldable pub holds_block : Phase → ℕ
holds_block joining = 1
holds_block (checked w) = 1
holds_block (writing w) = 1
holds_block (finishing w) = 1
holds_block (waiting_inside w) = 1
holds_block (woken_inside w) = 1
holds_block (resizing w) = 1
holds_block p = 0

unfoldable pub holds_manager : Phase → ℕ
holds_manager (resizing w) = 1
holds_manager managing = 1
holds_manager p = 0

unfoldable pub as_count : Bool → ℕ
as_count true = 1
as_count false = 0

unfoldable pub total : (Phase → ℕ) → List Phase → ℕ
total f [] = 0
total f (p ∷ ps) = f p + total f ps

pub total-append :
    (f : Phase → ℕ) (ps qs : List Phase) → total f (ps ++ qs) ≡ total f ps + total f qs
unfolding total
total-append f [] qs = omega arith
total-append f (p ∷ ps) qs = omega (arith, total-append f ps qs)

pub total-map :
    (f : Phase → ℕ) (g : Phase → Phase) (ps : List Phase)
    → ((p : Phase) → f (g p) ≡ f p)
    → total f (map g ps) ≡ total f ps
unfolding total
total-map f g [] same = refl
total-map f g (p ∷ ps) same = omega (arith, same p, total-map f g ps same)

pub total-replicate : (f : Phase → ℕ) (n : ℕ) → f rest ≡ 0 → total f (replicate n rest) ≡ 0
unfolding total
total-replicate f zero e = refl
total-replicate f (suc n) e = omega (arith, e, total-replicate f n e)

-- A counter of threads agrees after a step if the move accounts for its own thread.
pub total-Step :
    (f : Phase → ℕ) {s t : System} (step : Step s t) (c c' : ℕ)
    → ((n : Notice) (p : Phase) → f (hear n p) ≡ f p)
    → c' + f step.mover ≡ c + f step.moved
    → total f s.threads ≡ c
    → total f t.threads ≡ c'
unfolding total
total-Step f step c c' same pays e =
    ap (total f) step.is
    ∙ omega (
      arith,
      pays,
      e,
      ap (total f) step.was,
      total-append f step.before (step.mover ∷ step.after),
      total-append f (map (hear step.notice) step.before)
          (step.moved ∷ map (hear step.notice) step.after),
      total-map f (hear step.notice) step.before (same step.notice),
      total-map f (hear step.notice) step.after (same step.notice),
    )

pub in_block-hear : (n : Notice) (p : Phase) → in_block (hear n p) ≡ in_block p
unfolding hear in_block
in_block-hear n p = ground arith

pub in_manager-hear : (n : Notice) (p : Phase) → in_manager (hear n p) ≡ in_manager p
unfolding hear in_manager
in_manager-hear n p = ground arith

pub holds_block-hear : (n : Notice) (p : Phase) → holds_block (hear n p) ≡ holds_block p
unfolding hear holds_block
holds_block-hear n p = ground arith

pub holds_manager-hear : (n : Notice) (p : Phase) → holds_manager (hear n p) ≡ holds_manager p
unfolding hear holds_manager
holds_manager-hear n p = ground arith

-- A thread of the list adds its part.
pub total-member :
    (f : Phase → ℕ) (before after : List Phase) (p : Phase) → f p ≤ total f (before ++ (p ∷ after))
unfolding total
total-member f before after p = omega (arith, total-append f before (p ∷ after))
