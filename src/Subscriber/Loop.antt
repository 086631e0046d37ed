-- ===== src/Subscriber/Loop.antt =====
-- The whole loop of `receiveThread`, while another thread may call `shutdown`.
use message_transport.Common.{
  ℕ, zero, suc, ◌+◌, ◌≤◌, ◌<◌, ◌≡◌, inl, inr, refl, ap, ◌∙◌, Bool, true, false, Option, none, some,
  List, [], ◌∷◌, length, if◌then◌else◌, Bool-cases, arith,
}
use message_transport.Serialization.Serializer.{Serializer}
use message_transport.Sharedmem.Segment.{Segment}
use message_transport.Sharedmem.Block.State.{
  Outcome, ok, bad_alloc, overrun, aborted, out_of_bounds, thrown, OnOk, Shared, Others,
}
use message_transport.Subscriber.Receiver.{SharedmemSubscriber, plugin_shutdown, receive}

module _ (G : Segment) (others : Others G) {T : Type 0} (S : Serializer T) (fresh : T) where
  abbrev pub Thread : Type 0
  Thread = SharedmemSubscriber × Shared G

  -- The messages of the later passes behind that of this one.
  unfoldable pub got_before : Option T → Outcome Thread (List T) → Outcome Thread (List T)
  got_before none r = r
  got_before (some v) (ok vs x) = ok (v ∷ vs) x
  got_before (some v) (bad_alloc x) = bad_alloc x
  got_before (some v) (overrun x) = overrun x
  got_before (some v) aborted = aborted
  got_before (some v) out_of_bounds = out_of_bounds
  got_before (some v) (thrown x) = thrown x

  unfoldable pub got_first :
      Option T → Option (Outcome Thread (List T)) → Option (Outcome Thread (List T))
  got_first got none = none
  got_first got (some r) = some (got_before got r)

  -- The loop goes on where `wait_data` returned; an exception ends the thread.
  unfoldable pub go_on :
      (Thread → Option (Outcome Thread (List T)))
      → Outcome Thread (Option T)
      → Option (Outcome Thread (List T))
  go_on loop (ok got x) = got_first got (loop x)
  go_on loop (bad_alloc x) = some (bad_alloc x)
  go_on loop (overrun x) = some (overrun x)
  go_on loop aborted = some aborted
  go_on loop out_of_bounds = some out_of_bounds
  go_on loop (thrown x) = some (thrown x)

  unfoldable pub heeding : Bool → SharedmemSubscriber → SharedmemSubscriber
  heeding stop p = if stop then plugin_shutdown p else p

  -- `stops i` says whether `shutdown` is called before the pass `i`; `none` where the fuel ran out.
  unfoldable pub receive_thread : (ℕ → Bool) → ℕ → ℕ → Thread → Option (Outcome Thread (List T))
  receive_thread stops zero i x = none
  receive_thread stops (suc fuel) i (p, s) =
      let q = heeding (stops i) p in
      elim (q.is_running) [
        | false ↦ some (ok [] (q, s))
        | true ↦ go_on (receive_thread stops fuel (suc i)) (receive G others S fresh (q, s))
      ]

  -- The loop ended; if it returned, with the flag down and at most `n` messages.
  abbrev pub Ended : ℕ → Option (Outcome Thread (List T)) → Type 0
  Ended n r =
      (o : Outcome Thread (List T)) × (r ≡ some o)
      × OnOk o (λ vs x. (length vs ≤ n) × (x.0.is_running ≡ false))

  got_before-OnOk :
      (n : ℕ) (got : Option T) (o : Outcome Thread (List T))
      → OnOk o (λ vs x. (length vs ≤ n) × (x.0.is_running ≡ false))
      → OnOk (got_before got o) (λ vs x. (length vs ≤ suc n) × (x.0.is_running ≡ false))
  unfolding got_before
  got_before-OnOk n none (ok vs x) (few, off) = (omega arith, off)
  got_before-OnOk n none (bad_alloc x) h = tt
  got_before-OnOk n none (overrun x) h = tt
  got_before-OnOk n none aborted h = tt
  got_before-OnOk n none out_of_bounds h = tt
  got_before-OnOk n none (thrown x) h = tt
  got_before-OnOk n (some v) (ok vs x) (few, off) = (omega arith, off)
  got_before-OnOk n (some v) (bad_alloc x) h = tt
  got_before-OnOk n (some v) (overrun x) h = tt
  got_before-OnOk n (some v) aborted h = tt
  got_before-OnOk n (some v) out_of_bounds h = tt
  got_before-OnOk n (some v) (thrown x) h = tt

  go_on-Ended :
      (n : ℕ) (loop : Thread → Option (Outcome Thread (List T))) (r : Outcome Thread (Option T))
      → ((x : Thread) → Ended n (loop x))
      → Ended (suc n) (go_on loop r)
  unfolding go_on got_first
  go_on-Ended n loop (ok got x) ends =
      let (o, e, good) = ends x in
      (got_before got o, rw (e, got_first) refl, got_before-OnOk n got o good)
  go_on-Ended n loop (bad_alloc x) ends = (bad_alloc x, refl, tt)
  go_on-Ended n loop (overrun x) ends = (overrun x, refl, tt)
  go_on-Ended n loop aborted ends = (aborted, refl, tt)
  go_on-Ended n loop out_of_bounds ends = (out_of_bounds, refl, tt)
  go_on-Ended n loop (thrown x) ends = (thrown x, refl, tt)

  -- Where the flag is down at the test, the loop returns with no message.
  stopped-Ended :
      (stops : ℕ → Bool) (fuel i n : ℕ) (p : SharedmemSubscriber) (s : Shared G)
      → (heeding (stops i) p).is_running ≡ false
      → Ended n (receive_thread stops (suc fuel) i (p, s))
  unfolding receive_thread heeding
  stopped-Ended stops fuel i n p s off =
      (ok [] (heeding (stops i) p, s), rw (receive_thread, off) refl, (omega arith, off))

  loop_ends :
      (stops : ℕ → Bool) (n fuel i : ℕ) (p : SharedmemSubscriber) (s : Shared G)
      → stops (n + i) ≡ true
      → n < fuel
      → Ended n (receive_thread stops fuel i (p, s))
  unfolding heeding plugin_shutdown receive_thread
  loop_ends stops n zero i p s stop enough = absurd (omega arith)
  loop_ends stops zero (suc fuel) i p s stop enough =
      let same : i ≡ zero + i = omega arith in
      stopped-Ended stops fuel i 0 p s
        (ap (λ (b : Bool). (heeding b p).is_running) (ap stops same ∙ stop))
  loop_ends stops (suc n) (suc fuel) i p s stop enough =
      elim (Bool-cases (heeding (stops i) p).is_running) [
        | inr off ↦ stopped-Ended stops fuel i (suc n) p s off
        | inl on ↦
            rw (receive_thread, on)
              (go_on-Ended n (receive_thread stops fuel (suc i))
                (receive G others S fresh (heeding (stops i) p, s))
                (λ x.
                  let same : n + suc i ≡ suc n + i = omega arith in
                  loop_ends stops n fuel (suc i) x.0 x.1 (ap stops same ∙ stop) (omega arith)))
      ]

  -- When `shutdown` is called before the pass `n` of the loop, if not earlier, the loop ends after at
  -- most `n` passes, whatever the serializer does, other processes do and earlier passes bring: it
  -- returns with the flag down after at most `n` calls of the callback, or one of these passes threw.
  -- More fuel than `n` is enough.
  pub receive_thread-Ended :
      (stops : ℕ → Bool) (n fuel : ℕ) (p : SharedmemSubscriber) (s : Shared G)
      → stops n ≡ true
      → n < fuel
      → Ended n (receive_thread stops fuel 0 (p, s))
  receive_thread-Ended stops n fuel p s stop enough =
      let same : n + 0 ≡ n = omega arith in
      loop_ends stops n fuel 0 p s (ap stops same ∙ stop) enough
