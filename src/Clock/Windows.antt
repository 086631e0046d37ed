-- ===== src/Clock/Windows.antt =====
-- `now` as it is built for Windows: the real time clock, made finer by the performance counter as long
-- as the frequency of that counter stays the same.
use message_transport.Common.{
  ℕ, ◌+◌, ◌*◌, ◌%◌, ◌^◌, ◌<◌, ◌≡◌, refl, ap, ◌∙◌, Bool, true, false, not, List, [], ◌∷◌, map, ltb,
  lt→ltb, if◌then◌else◌,
}
use message_transport.Clock.Sync.{
  Double, TimestampSync, set_frequency, new_timestamp_sync, convert_native_to_local,
  get_event_count,
}

-- `_timeb`
pub record Timeb : Type 0 where
  pub time : ℕ
  pub millitm : ℕ

unfoldable pub rtc_of : Timeb → ℕ
rtc_of wintime = (wintime.time * 1000000000 + wintime.millitm * 1000000) % 2 ^ 64

module _ (D : Double) where
  -- What a call reads: the performance counter, its frequency, and the real time clock.
  pub record Reading : Type 0 where
    pub hi_perf : ℕ
    pub hpc_freq : D.Carrier
    pub wintime : Timeb

  -- The static variables.
  pub record Statics : Type 0 where
    pub synchronizer : TimestampSync D
    pub b_use_hpc : Bool
    pub last_hpc_freq : D.Carrier

  -- At the first call; `one_billion` is 1e9, `garbage` and `zero_freq` are what the memory held.
  unfoldable pub first_statics : D.Carrier → TimestampSync D → D.Carrier → Statics
  first_statics one_billion garbage zero_freq = record {
    synchronizer = new_timestamp_sync D one_billion one_billion garbage;
    b_use_hpc = true;
    last_hpc_freq = zero_freq;
  }

  unfoldable pub convert : Reading → Statics → ℕ × Statics
  convert r s =
      let (t, synchronizer) =
        convert_native_to_local D (D.of_int r.hi_perf) (rtc_of r.wintime) s.synchronizer in
      (t, record s { synchronizer = synchronizer })

  unfoldable pub initialise_frequency : D.Carrier → Reading → Statics → Statics
  initialise_frequency one_billion r s = record s {
    synchronizer = set_frequency D r.hpc_freq one_billion s.synchronizer;
    last_hpc_freq = r.hpc_freq;
  }

  unfoldable pub windows_now : D.Carrier → Reading → Statics → ℕ × Statics
  windows_now one_billion r s =
      if s.b_use_hpc
      then if ltb 0 (get_event_count D s.synchronizer)
        then if not (D.equal r.hpc_freq s.last_hpc_freq)
          then (rtc_of r.wintime, record s { b_use_hpc = false })
          else convert r s
        else convert r (initialise_frequency one_billion r s)
      else (rtc_of r.wintime, s)

  -- The answers of one call after the other.
  unfoldable pub windows_nows : D.Carrier → List Reading → Statics → List ℕ
  windows_nows one_billion [] s = []
  windows_nows one_billion (r ∷ rs) s =
      let (t, s') = windows_now one_billion r s in t ∷ windows_nows one_billion rs s'

  windows_now-off :
      (one_billion : D.Carrier) (r : Reading) (s : Statics)
      → s.b_use_hpc ≡ false
      → windows_now one_billion r s ≡ (rtc_of r.wintime, s)
  unfolding windows_now
  windows_now-off one_billion r s off =
      ap
        (λ (b : Bool).
          if b
          then if ltb 0 (get_event_count D s.synchronizer)
            then if not (D.equal r.hpc_freq s.last_hpc_freq)
              then (rtc_of r.wintime, record s { b_use_hpc = false })
              else convert r s
            else convert r (initialise_frequency one_billion r s)
          else (rtc_of r.wintime, s))
        off

  windows_nows-off :
      (one_billion : D.Carrier) (rs : List Reading) (s : Statics)
      → s.b_use_hpc ≡ false
      → windows_nows one_billion rs s ≡ map (λ (r : Reading). rtc_of r.wintime) rs
  unfolding windows_nows
  windows_nows-off one_billion [] s off = refl
  windows_nows-off one_billion (r ∷ rs) s off =
      ap (λ (x : ℕ × Statics). x.0 ∷ windows_nows one_billion rs x.1)
        (windows_now-off one_billion r s off)
      ∙ ap (λ (ts : List ℕ). rtc_of r.wintime ∷ ts) (windows_nows-off one_billion rs s off)

  -- Where a call after the first finds another frequency than the first one had, it returns the real
  -- time clock as it is, and so does every call after it, whatever the counter does from then on.
  pub windows_nows_unsteady :
      (one_billion : D.Carrier) (r : Reading) (rs : List Reading) (s : Statics)
      → s.b_use_hpc ≡ true
      → 0 < get_event_count D s.synchronizer
      → D.equal r.hpc_freq s.last_hpc_freq ≡ false
      → windows_nows one_billion (r ∷ rs) s ≡ map (λ (x : Reading). rtc_of x.wintime) (r ∷ rs)
  unfolding windows_nows windows_now
  windows_nows_unsteady one_billion r rs s on counted other =
      rw (windows_now, on, lt→ltb 0 (get_event_count D s.synchronizer) counted, other)
        (ap (λ (ts : List ℕ). rtc_of r.wintime ∷ ts)
          (windows_nows-off one_billion rs (record s { b_use_hpc = false }) refl))
