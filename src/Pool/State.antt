-- ===== src/Pool/State.antt =====
-- The timer, and the pool that it sweeps. An object is a number; 0 is the null pointer.
use message_transport.Common.{
  ℕ, ◌+◌, ◌-◌, Bool, true, false, not, List, [], ◌∷◌, ◌++◌, ltb, ◌==◌, if◌then◌else◌,
}

-- `pending` counts the calls of `callback` that the io service still has to make.
pub record Timer : Type 0 where
  pub timeout : ℕ
  pub expires_at : ℕ
  pub pending : ℕ
  pub flag_is_running : Bool

-- The deadline timer expires one timeout after the time `now`.
unfoldable pub new_timer : ℕ → ℕ → Timer
new_timer now timeout = record {
  timeout = timeout;
  expires_at = now + timeout;
  pending = 0;
  flag_is_running = false;
}

unfoldable pub start : Timer → Timer
start t = record t { flag_is_running = true; pending = t.pending + 1 }

unfoldable pub stop : Timer → Timer
stop t = record t { flag_is_running = false }

-- Where a call is pending: what `callback` does to the timer, whether `timerCallback` returns or throws,
-- as it catches the exception.
unfoldable pub callback : Timer → Timer
callback t =
    if t.flag_is_running
    then record t { expires_at = t.expires_at + t.timeout; pending = t.pending - 1 + 1 }
    else record t { pending = t.pending - 1 }

unfoldable pub count : ℕ → List ℕ → ℕ
count x [] = 0
count x (y ∷ ys) = let rest = count x ys in if x == y then rest + 1 else rest

pub record ReleasePool : Type 0 where
  pub timer : Timer
  pub pool : List ℕ

unfoldable pub new_pool : ℕ → ℕ → ReleasePool
unfolding new_timer start
new_pool now timeout = record { timer = start (new_timer now timeout); pool = [] }

unfoldable pub add : ℕ → ReleasePool → ReleasePool
add object p = if object == 0 then p else record p { pool = p.pool ++ (object ∷ []) }

-- The vector while `remove_if` runs, in front of the elements that are still to be tested: those that
-- are kept, then the places up to the next test, which hold the dropped elements that nothing was moved
-- over yet, and 0 where an element was moved away. `owners` counts the owners outside the pool.
pub record Sweep : Type 0 where
  pub owners : ℕ → ℕ
  pub kept : List ℕ
  pub gaps : List ℕ

-- What the destructor of an object does to the numbers of owners, as the object may own others.
abbrev pub Destructor : Type 0
Destructor = ℕ → (ℕ → ℕ) → ℕ → ℕ

-- Where a pointer is overwritten or erased: a dropped element was the last owner of its object.
unfoldable pub release : Destructor → ℕ → (ℕ → ℕ) → ℕ → ℕ
release destroy object owners = if object == 0 then owners else destroy object owners

unfoldable pub release_all : Destructor → List ℕ → (ℕ → ℕ) → ℕ → ℕ
release_all destroy [] owners = owners
release_all destroy (x ∷ xs) owners = release_all destroy xs (release destroy x owners)

-- `use_count` of an object: its owners outside the pool, and its entries in the vector.
unfoldable pub use_count : Sweep → List ℕ → ℕ → ℕ
use_count w rest object =
    w.owners object + (count object w.kept + (count object w.gaps + count object rest))

unfoldable pub ptr_not_active : Sweep → List ℕ → ℕ → Bool
ptr_not_active w rest object = not (ltb 1 (use_count w rest object))

-- An element that is kept is moved over the first gap, if there is one.
unfoldable pub keep : Destructor → ℕ → (ℕ → ℕ) → List ℕ → List ℕ → Sweep
keep destroy x owners kept [] = record { owners = owners; kept = kept ++ (x ∷ []); gaps = [] }
keep destroy x owners kept (gap ∷ gaps) = record {
  owners = release destroy gap owners;
  kept = kept ++ (x ∷ []);
  gaps = gaps ++ (0 ∷ []);
}

-- `std::remove_if`, from the element on that is tested next.
unfoldable pub remove_if : Destructor → List ℕ → Sweep → Sweep
remove_if destroy [] w = w
remove_if destroy (x ∷ xs) w = remove_if destroy xs (
    if ptr_not_active w (x ∷ xs) x
    then record w { gaps = w.gaps ++ (x ∷ []) }
    else keep destroy x w.owners w.kept w.gaps)

-- The pool and the owners after it: `erase` releases what is left in the gaps.
unfoldable pub timer_callback : Destructor → ReleasePool × (ℕ → ℕ) → ReleasePool × (ℕ → ℕ)
timer_callback destroy (p, owners) =
    let w = remove_if destroy p.pool (record { owners = owners; kept = []; gaps = [] }) in
    (record p { pool = w.kept }, release_all destroy w.gaps w.owners)

-- `callback` of the pool's timer.
unfoldable pub pool_callback : Destructor → ReleasePool × (ℕ → ℕ) → ReleasePool × (ℕ → ℕ)
unfolding timer_callback callback
pool_callback destroy (p, owners) =
    let (p', owners') =
      if p.timer.flag_is_running then timer_callback destroy (p, owners) else (p, owners) in
    (record p' { timer = callback p.timer }, owners')
