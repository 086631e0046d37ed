-- ===== src/Clock/Sync.antt =====
-- `TimestampSync`: a Kalman filter with a budget for outliers. The arithmetic on double is a parameter.
use message_transport.Common.{
  ℕ, zero, suc, ◌+◌, ◌-◌, ◌%◌, ◌^◌, Bool, true, false, ◌||◌, ltb, ◌==◌, if◌then◌else◌,
}

-- The constants of the source, by name or by value.
pub data Constant : Type 0 where
  local_noise : Constant
  gain_noise : Constant
  measurement_noise : Constant
  deviation_weight : Constant
  zero_point_zero : Constant
  zero_point_zero_zero_one : Constant
  two : Constant
  nine : Constant
  ten : Constant

-- `double`: `of_int` and `to_int` convert from and to `long long`, whose 64 bits stand for it, and
-- `const` gives the constants of the source.
pub record Double : Type 1 where
  pub Carrier : Type 0
  pub add : Carrier → Carrier → Carrier
  pub sub : Carrier → Carrier → Carrier
  pub mul : Carrier → Carrier → Carrier
  pub div : Carrier → Carrier → Carrier
  pub less : Carrier → Carrier → Bool
  pub equal : Carrier → Carrier → Bool
  pub of_int : ℕ → Carrier
  pub to_int : Carrier → ℕ
  pub const : Constant → Carrier

-- `int`: `pos n` is n, `negsuc n` is -(n+1).
pub data ℤ : Type 0 where
  pos : ℕ → ℤ
  negsuc : ℕ → ℤ

unfoldable pub is_negative : ℤ → Bool
is_negative (pos n) = false
is_negative (negsuc n) = true

unfoldable pub increment : ℤ → ℤ
increment (pos n) = pos (n + 1)
increment (negsuc zero) = pos 0
increment (negsuc (suc n)) = negsuc n

unfoldable pub decrement : ℤ → ℤ
decrement (pos zero) = negsuc 0
decrement (pos (suc n)) = pos n
decrement (negsuc n) = negsuc (n + 1)

-- `std::min( 40, b )`
unfoldable pub at_most_40 : ℤ → ℤ
at_most_40 (pos n) = if ltb n 40 then pos n else pos 40
at_most_40 (negsuc n) = negsuc n

module _ (D : Double) where
  pub record TimestampSync : Type 0 where
    pub m_events : ℕ
    pub m_last_native : D.Carrier
    pub m_f_local_noise : D.Carrier
    pub m_f_gain_noise : D.Carrier
    pub m_f_measurement_noise : D.Carrier
    pub m_est_local : ℕ
    pub m_est_gain : D.Carrier
    pub m_p1 : D.Carrier
    pub m_p2 : D.Carrier
    pub m_p3 : D.Carrier
    pub m_outlier_budget : ℤ
    pub m_avg_deviation_square : D.Carrier

  -- `std::pow( x, 2 )`
  abbrev square : D.Carrier → D.Carrier
  square x = D.mul x x

  unfoldable pub set_frequency : D.Carrier → D.Carrier → TimestampSync → TimestampSync
  set_frequency approx_native_freq approx_local_freq t =
      let gain = D.div approx_local_freq approx_native_freq in
      record t {
        m_est_gain = gain;
        m_f_local_noise = square (D.mul (D.const local_noise) approx_local_freq);
        m_f_gain_noise = square (D.mul (D.const gain_noise) gain);
        m_f_measurement_noise = square (D.mul (D.const measurement_noise) approx_local_freq);
        m_p1 = square approx_local_freq;
        m_p2 = D.const zero_point_zero;
        m_p3 = square (D.mul (D.const ten) gain);
        m_avg_deviation_square =
            square (D.mul (D.const zero_point_zero_zero_one) approx_local_freq);
      }

  -- The constructor, on memory that held `garbage`.
  unfoldable pub new_timestamp_sync : D.Carrier → D.Carrier → TimestampSync → TimestampSync
  new_timestamp_sync approx_native_freq approx_local_freq garbage =
      set_frequency approx_native_freq approx_local_freq
        (record garbage { m_events = 0; m_outlier_budget = negsuc 99 })

  -- The initialisation on the first event.
  unfoldable pub begin_with : D.Carrier → ℕ → TimestampSync → TimestampSync
  begin_with native local t =
      if t.m_events == 0 then record t { m_last_native = native; m_est_local = local } else t

  unfoldable pub time_update : D.Carrier → TimestampSync → TimestampSync
  time_update native t =
      let delta_n = D.sub native t.m_last_native in
      record t {
        m_est_local = (t.m_est_local + D.to_int (D.mul delta_n t.m_est_gain)) % 2 ^ 64;
        m_p1 = D.add t.m_p1 (
            D.add
              (D.add (D.mul (D.mul (D.const two) delta_n) t.m_p2)
                (D.mul (D.mul delta_n delta_n) t.m_p3))
              t.m_f_local_noise);
        m_p2 = D.add t.m_p2 (D.mul delta_n t.m_p3);
        m_p3 = D.add t.m_p3 t.m_f_gain_noise;
      }

  unfoldable pub deviation : ℕ → TimestampSync → D.Carrier
  deviation local t = D.of_int ((local + (2 ^ 64 - t.m_est_local)) % 2 ^ 64)

  unfoldable pub is_accepted : ℕ → TimestampSync → Bool
  is_accepted local t =
      let delta_l = deviation local t in
      D.less (D.mul delta_l delta_l) (D.mul t.m_avg_deviation_square (D.const nine))
      || is_negative t.m_outlier_budget

  unfoldable pub measurement_update : ℕ → TimestampSync → TimestampSync
  measurement_update local t =
      let delta_l = deviation local t in
      let deviation_square = D.mul delta_l delta_l in
      let k1 = D.div t.m_p1 (D.add t.m_f_measurement_noise t.m_p1) in
      let k2 = D.div t.m_p2 (D.add t.m_f_measurement_noise t.m_p1) in
      record t {
        m_est_gain = D.add t.m_est_gain (D.mul k2 delta_l);
        m_est_local = (t.m_est_local + D.to_int (D.mul k1 delta_l)) % 2 ^ 64;
        m_p1 = D.mul t.m_f_measurement_noise k1;
        m_p3 = D.sub t.m_p3 (D.mul t.m_p2 k2);
        m_p2 = D.mul t.m_f_measurement_noise k2;
        m_avg_deviation_square =
            if ltb 50 t.m_events
            then D.add t.m_avg_deviation_square
                (D.mul (D.sub deviation_square t.m_avg_deviation_square) (D.const deviation_weight))
            else t.m_avg_deviation_square;
        m_outlier_budget = at_most_40 (increment t.m_outlier_budget);
      }

  -- The outlier test and what follows from it.
  unfoldable pub correct : ℕ → TimestampSync → TimestampSync
  correct local t =
      if is_accepted local t
      then measurement_update local t
      else record t { m_outlier_budget = decrement (decrement t.m_outlier_budget) }

  unfoldable pub convert_native_to_local : D.Carrier → ℕ → TimestampSync → ℕ × TimestampSync
  convert_native_to_local native local t =
      let t' = correct local (time_update native (begin_with native local t)) in
      (t'.m_est_local, record t' { m_last_native = native; m_events = (t'.m_events + 1) % 2 ^ 32 })

  unfoldable pub get_event_count : TimestampSync → ℕ
  get_event_count t = t.m_events
