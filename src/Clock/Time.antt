-- ===== src/Clock/Time.antt =====
-- `sleep`, `getHighPerformanceCounter`, `now`, and the fields of `timestampToShortString`, as they are
-- built for unix.
use message_transport.Common.{ℕ, ◌+◌, ◌*◌, ◌/◌, ◌%◌, ◌^◌}

-- `timespec`
pub record Timespec : Type 0 where
  pub tv_sec : ℕ
  pub tv_nsec : ℕ

-- What `sleep` passes to `nanosleep`; `unsigned` arithmetic wraps.
unfoldable pub sleep : ℕ → ℕ → Timespec
sleep ms ns = record { tv_sec = ms / 1000; tv_nsec = ((ms % 1000) * 1000000 + ns) % 2 ^ 32 }

-- `timeval`
pub record Timeval : Type 0 where
  pub tv_sec : ℕ
  pub tv_usec : ℕ

unfoldable pub get_high_performance_counter : Timeval → ℕ
get_high_performance_counter tv = tv.tv_sec * 1000000 + tv.tv_usec

unfoldable pub now : Timeval → ℕ
now tv = (tv.tv_sec * 1000000000 + tv.tv_usec * 1000) % 2 ^ 64

-- The seconds that `localtime_r` splits, and the microseconds that are printed behind them.
unfoldable pub seconds_of : ℕ → ℕ
seconds_of t = t / 1000000000

unfoldable pub micros_of : ℕ → ℕ
micros_of t = (t / 1000) % 1000000
