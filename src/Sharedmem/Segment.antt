-- ===== src/Sharedmem/Segment.antt =====
-- Boost's managed_shared_memory as a parameter: the operations that the code calls on it, and what
-- its documentation says of them. The names here are those of blocks. The manager is an object of the
-- same segment, under the name "Manager", which these operations do not show: a topic of that name,
-- whose block would be the manager itself, is outside the model.
use message_transport.Common.{ℕ, ◌≡◌, ◌≢◌, Option, some, List, length}

-- The pair that `find` returns: the null pointer 0 and the count 0 if nothing has the name.
pub record Found : Type 0 where
  pub first : ℕ
  pub second : ℕ

-- `construct` is `find_or_construct<uint8_t>(name)[size](0)`, with `none` for bad_alloc. `bytes` and
-- `put_bytes` read and write the memory of the object at a pointer.
pub record Segment : Type 1 where
  pub Memory : Type 0
  pub find : Memory → List ℕ → Found
  pub construct : Memory → List ℕ → ℕ → Option (Memory × ℕ)
  pub destroy : Memory → List ℕ → Memory
  pub bytes : Memory → ℕ → List ℕ
  pub put_bytes : Memory → ℕ → List ℕ → Memory

pub record IsSegment (G : Segment) : Type 0 where
  pub find_absent : (m : G.Memory) (n : List ℕ) → (G.find m n).first ≡ 0 → (G.find m n).second ≡ 0
  pub find-destroy : (m : G.Memory) (n : List ℕ) → (G.find (G.destroy m n) n).first ≡ 0
  pub find-destroy_ne :
      (m : G.Memory) (n k : List ℕ) → k ≢ n → G.find (G.destroy m n) k ≡ G.find m k
  -- A new object has the size that was asked for.
  pub construct_new :
      (m m' : G.Memory) (n : List ℕ) (size p : ℕ)
      → (G.find m n).first ≡ 0
      → G.construct m n size ≡ some (m', p)
      → (p ≢ 0) × (G.find m' n ≡ record { first = p; second = size })
  pub construct_ne :
      (m m' : G.Memory) (n k : List ℕ) (size p : ℕ)
      → G.construct m n size ≡ some (m', p)
      → k ≢ n
      → G.find m' k ≡ G.find m k
  pub length-bytes :
      (m : G.Memory) (n : List ℕ)
      → (G.find m n).first ≢ 0
      → length (G.bytes m (G.find m n).first) ≡ (G.find m n).second
  -- Writing within an object changes its bytes and no directory entry.
  pub bytes-put_bytes :
      (m : G.Memory) (p : ℕ) (bs : List ℕ)
      → length bs ≡ length (G.bytes m p)
      → G.bytes (G.put_bytes m p bs) p ≡ bs
  pub find-put_bytes :
      (m : G.Memory) (p : ℕ) (bs k : List ℕ) → G.find (G.put_bytes m p bs) k ≡ G.find m k
