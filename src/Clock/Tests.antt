-- ===== src/Clock/Tests.antt =====
-- The theorems on clocks at concrete inputs, with numbers for the arithmetic on double.
use message_transport.Common.{
  ℕ, ◌+◌, ◌-◌, ◌*◌, ◌<◌, ◌≡◌, true, [], ◌∷◌, ltb, ◌==◌, map, refl, arith,
}
use message_transport.Clock.Time.{sleep, Timeval}
use message_transport.Clock.Sync.{
  Double, pos, TimestampSync, new_timestamp_sync, begin_with, time_update, is_accepted,
  get_event_count,
}
use message_transport.Clock.Outliers.{
  InBudget, convert_all, convert_all-InBudget, first_hundred_accepted, sleep_lem,
}
use message_transport.Clock.Windows.{rtc_of, Reading, Statics, windows_nows, windows_nows_unsteady}
use message_transport.Common.{◌/◌, ◌%◌}
use message_transport.Clock.Strings.{Tm}

abbrev whole : Double
whole = record {
  Carrier = ℕ;
  add = λ x y. x + y;
  sub = λ x y. x - y;
  mul = λ x y. x * y;
  div = λ x y. x;
  less = ltb;
  equal = ◌==◌;
  of_int = λ x. x;
  to_int = λ x. x;
  const = λ c. 1;
}

abbrev raw : TimestampSync whole
raw = record {
  m_events = 0;
  m_last_native = 0;
  m_f_local_noise = 0;
  m_f_gain_noise = 0;
  m_f_measurement_noise = 0;
  m_est_local = 0;
  m_est_gain = 0;
  m_p1 = 0;
  m_p2 = 0;
  m_p3 = 0;
  m_outlier_budget = pos 40;
  m_avg_deviation_square = 0;
}

convert_all-InBudget_example :
    InBudget (convert_all whole ((1, 1000) ∷ (2, 9) ∷ []) raw).m_outlier_budget
unfolding InBudget
convert_all-InBudget_example =
    convert_all-InBudget whole ((1, 1000) ∷ (2, 9) ∷ []) raw (omega arith)

first_hundred_accepted_example :
    is_accepted whole 4 (
      time_update whole 3 (
        begin_with whole 3 4
          (convert_all whole ((1, 1000) ∷ []) (new_timestamp_sync whole 1 1 raw))))
    ≡ true
first_hundred_accepted_example =
    first_hundred_accepted whole 1 1 raw ((1, 1000) ∷ []) 3 4 (omega arith)

abbrev moment : Timeval
moment = record { tv_sec = 1700000000; tv_usec = 123456 }

abbrev utc : ℕ → Tm
utc seconds = record {
  tm_hour = (seconds / 3600) % 24;
  tm_min = (seconds / 60) % 60;
  tm_sec = seconds % 60;
}

sleep_lem_example :
    ((sleep 1500 7).tv_sec * 1000000000 + (sleep 1500 7).tv_nsec ≡ 1500 * 1000000 + 7)
    × ((sleep 1500 7).tv_nsec < 1000000000)
sleep_lem_example = sleep_lem 1500 7 (omega arith)

abbrev reading : ℕ → Reading whole
reading freq = record {
  hi_perf = 5;
  hpc_freq = freq;
  wintime = record { time = 1700000000; millitm = 12 };
}

abbrev running : Statics whole
running = record {
  synchronizer = record raw { m_events = 3 };
  b_use_hpc = true;
  last_hpc_freq = 1000;
}

windows_nows_unsteady_example :
    windows_nows whole 1 (reading 900 ∷ reading 1000 ∷ []) running
    ≡ map (λ (x : Reading whole). rtc_of x.wintime) (reading 900 ∷ reading 1000 ∷ [])
unfolding get_event_count
windows_nows_unsteady_example =
    windows_nows_unsteady whole 1 (reading 900) (reading 1000 ∷ []) running refl (omega arith) refl
