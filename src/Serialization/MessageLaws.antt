-- ===== src/Serialization/MessageLaws.antt =====
-- What the serializer of `RawMessage` promises: whole messages over streams of exactly their size.
use message_transport.Common.{
  ℕ, ◌+◌, ◌-◌, ◌%◌, ◌^◌, ◌≤◌, ◌<◌, ◌≡◌, ◌≢◌, refl, sym, ap, ◌∙◌, fun_ext, true, false, Option, none,
  List, [], ◌∷◌, ◌++◌, length, take, drop, flatten, length-append, append_assoc, take-length,
  take-length-append, arith, ltb, lt→ltb, Bool,
}
use message_transport.Common.Memory.{store, load, drop-store, store-Frame}
use message_transport.Serialization.Stream.{
  Stream, Io, ok, pure, ◌>>=◌, ◌>>◌, advance, write_at, get_length, open_stream,
}
use message_transport.Serialization.Puts.{put, puts, puts-append, puts_fit, written}
use message_transport.Serialization.Serializer.{skipped}
use message_transport.Serialization.Scalars.{
  uint64, simple, simple-IsCodec, sizeof, to_bytes, length-to_bytes,
}
use message_transport.Serialization.Strings.{when, body_chunks, flatten-body_chunks}
use message_transport.Serialization.Elements.{drop_ahead}
use message_transport.Serialization.MemoryCodecs.{store_all}
use message_transport.Serialization.Interface.{
  RoundTrips, serialize, deserialize, serialization_length,
}
use message_transport.Serialization.Message.{
  RawMessage, allocate, get_data_ptr, get_data_length, write_message, copy_message, read_message,
  message_length, message,
}
use mathlib.Core.Path.{ap₂}
use native.Mathlib.Nat.{mod-eq_of_lt}
use message_transport.Serialization.Buffers.{IsMessage, Allocates, allocate_lem, allocate_fails}

abbrev pub message_bytes : RawMessage → List ℕ
message_bytes m = to_bytes 8 m.timestamp ++ m.m_value

length-message_bytes :
    (m : RawMessage) → IsMessage m → length (message_bytes m) ≡ 8 + m.m_allocated_bytes
length-message_bytes m v =
    length-append (to_bytes 8 m.timestamp) m.m_value
    ∙ omega (arith, length-to_bytes 8 m.timestamp, v)

abbrev message_chunks : RawMessage → List (List ℕ)
message_chunks m = to_bytes 8 m.timestamp ∷ body_chunks m.m_value

write_data :
    (data_bytes : List ℕ) (s : Stream)
    → let n = length data_bytes in
      when (ltb 0 n) (advance n >>= λ p. write_at p (take n data_bytes)) (pure tt) s
      ≡ puts (body_chunks data_bytes) s
unfolding advance write_at puts put
write_data [] s = refl
write_data (b ∷ bs) s = rw (lt→ltb 0 (length (b ∷ bs)) (omega arith), take-length) (ground arith)

write_stamp : (n : ℕ) → n < 2 ^ 64 → (simple uint64).write n ≡ puts (to_bytes 8 n ∷ [])
unfolding sizeof
write_stamp n h = (simple-IsCodec uint64).write_lem n (omega arith)

pub write_message_lem :
    (m : RawMessage)
    → IsMessage m
    → m.timestamp < 2 ^ 64
    → write_message m ≡ puts (message_chunks m)
unfolding write_message
write_message_lem m v h = rw (← v) (
    ap (λ (w : Io (Unit {0})). w >> body) (write_stamp m.timestamp h)
    ∙ ap (λ (w : Io (Unit {0})). puts (to_bytes 8 m.timestamp ∷ []) >> w)
        (fun_ext λ s. write_data m.m_value s)
    ∙ sym (puts-append (to_bytes 8 m.timestamp ∷ []) (body_chunks m.m_value)))
  where
    body : Io (Unit {0})
    body =
        let n = length m.m_value in
        when (ltb 0 n) (advance n >>= λ p. write_at p (take n m.m_value)) (pure tt)

read_stamp :
    (n old : ℕ) (c : Stream) (rest : List ℕ)
    → n < 2 ^ 64
    → drop c.data_ c.mem ≡ to_bytes 8 n ++ rest
    → c.data_ + 8 ≤ c.end_
    → (simple uint64).read old c ≡ ok n (skipped c 8)
unfolding sizeof to_bytes
read_stamp n old c rest h e b = (simple-IsCodec uint64).read_lem n old c rest (omega arith) tt e b

copy_data :
    (m : RawMessage) (bytes rest : List ℕ) (c : Stream)
    → length m.m_value ≡ length bytes
    → drop c.data_ c.mem ≡ bytes ++ rest
    → c.data_ + length bytes ≤ c.end_
    → copy_message (length bytes) (m, true) c
      ≡ ok (record m { m_value = bytes }) (skipped c (length bytes))
unfolding copy_message load
copy_data m [] rest c l e b = empty m.m_value l
  where
    empty :
        (buffer : List ℕ)
        → length buffer ≡ 0
        → ok (record m { m_value = buffer }) c ≡ ok (record m { m_value = [] }) (skipped c 0)
    empty [] h = ground arith
    empty (x ∷ xs) h = absurd (omega arith)
copy_data m (x ∷ bytes) rest c l e b =
    rw (lt→ltb 0 (length (x ∷ bytes)) (omega arith))
      (ground (arith, e, take-length-append (x ∷ bytes) rest, store_all m.m_value (x ∷ bytes) l))

-- `read` takes the time, and all that is left of the stream for the data.
pub read_message_lem :
    (alloc : ℕ → Option (List ℕ)) (stamp : ℕ) (bytes rest : List ℕ) (old : RawMessage) (c : Stream)
    → stamp < 2 ^ 64
    → length bytes < 2 ^ 32
    → IsMessage old
    → Allocates alloc (length bytes)
    → drop c.data_ c.mem ≡ to_bytes 8 stamp ++ (bytes ++ rest)
    → c.end_ ≡ c.data_ + 8 + length bytes
    → read_message alloc old c
      ≡ ok
          (record { timestamp = stamp; m_value = bytes; m_allocated_bytes = length bytes })
          (skipped c (8 + length bytes))
unfolding read_message get_length
read_message_lem alloc stamp bytes rest old c hs hb v room e b =
    rw (read_stamp stamp old.timestamp c (bytes ++ rest) hs e (omega arith), ◌>>=◌)
      (rw (left, ◌>>=◌)
        (copied (allocate alloc (length bytes) start)
          (allocate_lem alloc (length bytes) start room v)))
  where
    start : RawMessage
    start = record old { timestamp = stamp }

    left : (c.end_ - (c.data_ + 8)) % 2 ^ 32 ≡ length bytes
    left = omega arith

    ahead : drop (c.data_ + 8) c.mem ≡ bytes ++ rest
    ahead = rw (length-to_bytes 8 stamp) at (drop_ahead c (to_bytes 8 stamp) (bytes ++ rest) e)

    copied :
        (r : RawMessage × Bool)
        → (r.1 ≡ true)
          × (r.0.m_allocated_bytes ≡ length bytes)
          × (length r.0.m_value ≡ length bytes)
          × (r.0.timestamp ≡ stamp)
        → copy_message (length bytes) r (skipped c 8)
          ≡ ok
              (record { timestamp = stamp; m_value = bytes; m_allocated_bytes = length bytes })
              (skipped c (8 + length bytes))
    copied (m, done) (d, n, l, t) =
        rw d (copy_data m bytes rest (skipped c 8) l ahead (omega arith) ∙ ground (arith, n, t))

-- A raw message whose buffer has the recorded size, whose time fits 64 bits and whose length with
-- the 8 bytes in front is below 2^32 comes back from exactly the announced number of bytes,
-- anywhere in a memory that has room for them, into any message whose buffer has the recorded
-- size, if the allocator can give the buffer; nothing outside those bytes changes.
pub message_round_trip :
    (alloc : ℕ → Option (List ℕ)) (m old : RawMessage) (mem : List ℕ) (start : ℕ)
    → IsMessage m
    → IsMessage old
    → m.timestamp < 2 ^ 64
    → 8 + m.m_allocated_bytes < 2 ^ 32
    → Allocates alloc m.m_allocated_bytes
    → start + (8 + m.m_allocated_bytes) ≤ length mem
    → RoundTrips (message alloc) m old mem start
unfolding serialize deserialize serialization_length open_stream message_length get_data_length
message_round_trip alloc m old mem start v vo stamp small room fits = rw (mod-eq_of_lt small) (
  written s (message_bytes m),
  rw (write_message_lem m v stamp) wrote,
  back ∙ ap₂ ok (ground arith) (ground (arith, total)),
  store-Frame start (start + (8 + m.m_allocated_bytes)) mem start (message_bytes m) (omega arith)
      (omega (arith, total)),
)
  where
    s : Stream
    s = record { mem = mem; data_ = start; end_ = start + (8 + m.m_allocated_bytes) }

    total : length (message_bytes m) ≡ 8 + m.m_allocated_bytes
    total = length-message_bytes m v

    chunk_bytes : flatten (message_chunks m) ≡ message_bytes m
    chunk_bytes = ap (λ (bs : List ℕ). to_bytes 8 m.timestamp ++ bs) (flatten-body_chunks m.m_value)

    wrote : puts (message_chunks m) s ≡ ok tt (written s (message_bytes m))
    wrote =
        rw chunk_bytes at (puts_fit (message_chunks m) s (rw chunk_bytes (omega (arith, total))))

    back :
        read_message alloc old
          (record { mem = store mem start (message_bytes m); data_ = start; end_ = s.end_ })
        ≡ ok
            (record m { m_allocated_bytes = length m.m_value })
            (record {
              mem = store mem start (message_bytes m);
              data_ = start + (8 + length m.m_value);
              end_ = s.end_;
            })
    back =
        read_message_lem alloc m.timestamp m.m_value (drop (start + length (message_bytes m)) mem)
          old (record { mem = store mem start (message_bytes m); data_ = start; end_ = s.end_ })
          stamp (omega arith) vo (rw v room)
          (drop-store mem start (message_bytes m) (omega (arith, total))
            ∙ append_assoc (to_bytes 8 m.timestamp) m.m_value _)
          (omega arith)

-- Where the allocator has no room for the data, `read` returns normally: the message has the time
-- that was sent and no data, and the stream stands behind the time.
pub read_message_no_memory :
    (alloc : ℕ → Option (List ℕ)) (stamp size : ℕ) (rest : List ℕ) (old : RawMessage) (c : Stream)
    → stamp < 2 ^ 64
    → 0 < size
    → size < 2 ^ 32
    → size ≢ old.m_allocated_bytes
    → alloc size ≡ none
    → drop c.data_ c.mem ≡ to_bytes 8 stamp ++ rest
    → c.end_ ≡ c.data_ + 8 + size
    → (m : RawMessage) × (read_message alloc old c ≡ ok m (skipped c 8))
      × (m.timestamp ≡ stamp)
      × (get_data_length m ≡ 0)
      × (get_data_ptr m ≡ none)
unfolding read_message get_length
read_message_no_memory alloc stamp size rest old c hs pos hb other room e b = (
  failed.0,
  rw (read_stamp stamp old.timestamp c rest hs e (omega arith), ◌>>=◌)
      (rw (left, ◌>>=◌) (refused failed facts.0)),
  facts.3,
  facts.1,
  facts.2,
)
  where
    failed : RawMessage × Bool
    failed = allocate alloc size (record old { timestamp = stamp })

    facts :
        (failed.1 ≡ false)
        × (get_data_length failed.0 ≡ 0)
        × (get_data_ptr failed.0 ≡ none)
        × (failed.0.timestamp ≡ stamp)
    facts = allocate_fails alloc size (record old { timestamp = stamp }) room pos other

    left : (c.end_ - (c.data_ + 8)) % 2 ^ 32 ≡ size
    left = omega arith

    refused :
        (r : RawMessage × Bool)
        → r.1 ≡ false
        → copy_message size r (skipped c 8) ≡ ok r.0 (skipped c 8)
    refused (m, done) d = rw d (unfold copy_message in refl)
