-- ===== src/Clock/Outliers.antt =====
-- The outlier budget: its range, and which measurements can be rejected.
use message_transport.Common.{
  ℕ, zero, suc, ◌+◌, ◌-◌, ◌*◌, ◌^◌, ◌≤◌, ◌<◌, ◌≡◌, ◌⊎◌, inl, inr, refl, sym, ap, ◌∙◌, true, false,
  List, [], ◌∷◌, length, ◌==◌, Bool-cases, arith,
}
use message_transport.Clock.Time.{sleep, Timeval, now, seconds_of, micros_of}
use message_transport.Clock.Sync.{
  Double, ℤ, pos, negsuc, is_negative, increment, decrement, at_most_40, TimestampSync,
  set_frequency, new_timestamp_sync, begin_with, time_update, is_accepted, measurement_update,
  correct, convert_native_to_local,
}
use native.Mathlib.Nat.{mod-eq_of_lt}

-- From -100 to 40.
unfoldable pub InBudget : ℤ → Type 0
InBudget (pos n) = n ≤ 40
InBudget (negsuc n) = n < 100

accept-InBudget : (b : ℤ) → InBudget b → InBudget (at_most_40 (increment b))
unfolding InBudget at_most_40 increment
accept-InBudget (pos n) h = ground arith
accept-InBudget (negsuc zero) h = omega arith
accept-InBudget (negsuc (suc n)) h = omega arith

reject-InBudget : (b : ℤ) → is_negative b ≡ false → InBudget b → InBudget (decrement (decrement b))
unfolding InBudget decrement is_negative
reject-InBudget (pos zero) e h = omega arith
reject-InBudget (pos (suc zero)) e h = omega arith
reject-InBudget (pos (suc (suc n))) e h = omega arith
reject-InBudget (negsuc n) e h = cc

module _ (D : Double) where
  -- The budget of a measurement that is rejected is not negative.
  not_accepted :
      (local : ℕ) (t : TimestampSync D)
      → is_accepted D local t ≡ false
      → is_negative t.m_outlier_budget ≡ false
  unfolding is_accepted
  not_accepted local t e = ground (arith, e)

  negative_accepted :
      (local : ℕ) (t : TimestampSync D) (n : ℕ)
      → t.m_outlier_budget ≡ negsuc n
      → is_accepted D local t ≡ true
  unfolding is_accepted is_negative
  negative_accepted local t n e = ground (arith, e)

  early_budget :
      (native : D.Carrier) (local : ℕ) (t : TimestampSync D)
      → (time_update D native (begin_with D native local t)).m_outlier_budget ≡ t.m_outlier_budget
  unfolding time_update begin_with
  early_budget native local t = elim (Bool-cases (t.m_events == 0)) [
    | inl e ↦ rw e refl
    | inr e ↦ rw e refl
  ]

  -- What a conversion does to the budget: one more, up to 40, or two less where it was not negative.
  correct_budget :
      (local : ℕ) (t : TimestampSync D) (b : ℤ)
      → t.m_outlier_budget ≡ b
      → ((correct D local t).m_outlier_budget ≡ at_most_40 (increment b))
        ⊎ (((correct D local t).m_outlier_budget ≡ decrement (decrement b))
            × (is_negative b ≡ false))
  unfolding correct measurement_update
  correct_budget local t b same = elim (Bool-cases (is_accepted D local t)) [
    | inl e ↦ inl (rw e (ap (λ x. at_most_40 (increment x)) same))
    | inr e ↦ inr (
      rw e (ap (λ x. decrement (decrement x)) same),
      ap is_negative (sym same) ∙ not_accepted local t e,
    )
  ]

  unfoldable pub convert_all : List (D.Carrier × ℕ) → TimestampSync D → TimestampSync D
  convert_all [] t = t
  convert_all ((native, local) ∷ ms) t = convert_all ms (convert_native_to_local D native local t).1

  convert_budget :
      (native : D.Carrier) (local : ℕ) (t : TimestampSync D)
      → ((convert_native_to_local D native local t).1.m_outlier_budget
          ≡ at_most_40 (increment t.m_outlier_budget))
        ⊎ (((convert_native_to_local D native local t).1.m_outlier_budget
              ≡ decrement (decrement t.m_outlier_budget))
            × (is_negative t.m_outlier_budget ≡ false))
  unfolding convert_native_to_local
  convert_budget native local t =
      correct_budget local (time_update D native (begin_with D native local t)) t.m_outlier_budget
        (early_budget native local t)

  -- Through any sequence of measurements the budget stays between -100 and 40, whatever the arithmetic
  -- on double gives.
  pub convert_all-InBudget :
      (ms : List (D.Carrier × ℕ)) (t : TimestampSync D)
      → InBudget t.m_outlier_budget
      → InBudget (convert_all ms t).m_outlier_budget
  unfolding convert_all
  convert_all-InBudget [] t h = h
  convert_all-InBudget ((native, local) ∷ ms) t h =
      convert_all-InBudget ms (convert_native_to_local D native local t).1
        (elim (convert_budget native local t) [
          | inl e ↦ rw e (accept-InBudget t.m_outlier_budget h)
          | inr (e, room) ↦ rw e (reject-InBudget t.m_outlier_budget room h)
        ])

  negative_step :
      (native : D.Carrier) (local n : ℕ) (t : TimestampSync D)
      → t.m_outlier_budget ≡ negsuc (suc n)
      → (convert_native_to_local D native local t).1.m_outlier_budget ≡ negsuc n
  unfolding at_most_40 increment is_negative
  negative_step native local n t e = elim (convert_budget native local t) [
    | inl f ↦ f ∙ rw e refl
    | inr (f, room) ↦ absurd (ground (arith, rw e at room))
  ]

  early_run :
      (ms : List (D.Carrier × ℕ)) (n : ℕ) (t : TimestampSync D)
      → t.m_outlier_budget ≡ negsuc (length ms + n)
      → (convert_all ms t).m_outlier_budget ≡ negsuc n
  unfolding convert_all
  early_run [] n t e = e ∙ ap negsuc (omega arith)
  early_run ((native, local) ∷ ms) n t e =
      early_run ms n (convert_native_to_local D native local t).1
        (negative_step native local (length ms + n) t (e ∙ ap negsuc (omega arith)))

  -- A new synchroniser accepts each of the first 100 measurements: after any 99 or fewer, the outlier
  -- test passes for every next one, whatever it is and whatever the arithmetic on double gives.
  pub first_hundred_accepted :
      (native_freq local_freq : D.Carrier) (garbage : TimestampSync D) (ms : List (D.Carrier × ℕ))
      (native : D.Carrier) (local : ℕ)
      → length ms < 100
      → let t = convert_all ms (new_timestamp_sync D native_freq local_freq garbage) in
        is_accepted D local (time_update D native (begin_with D native local t)) ≡ true
  unfolding new_timestamp_sync set_frequency
  first_hundred_accepted native_freq local_freq garbage ms native local h =
      let t = new_timestamp_sync D native_freq local_freq garbage in
      let e : (convert_all ms t).m_outlier_budget ≡ negsuc (99 - length ms) =
        early_run ms (99 - length ms) t (ap negsuc (omega arith)) in
      negative_accepted local (time_update D native (begin_with D native local (convert_all ms t)))
        (99 - length ms) (early_budget native local (convert_all ms t) ∙ e)

-- `now` loses nothing of the time of day: the seconds and the microseconds can be read back from the
-- time stamp as `timestampToShortString` reads them, up to the year 2554.
pub now_lem :
    (tv : Timeval)
    → tv.tv_usec < 1000000
    → tv.tv_sec < 18446744073
    → (seconds_of (now tv) ≡ tv.tv_sec)
      × (micros_of (now tv) ≡ tv.tv_usec)
      × (micros_of (now tv) < 1000000)
unfolding now seconds_of micros_of
now_lem tv h small =
    let fits : tv.tv_sec * 1000000000 + tv.tv_usec * 1000 < 2 ^ 64 = omega arith in
    rw (mod-eq_of_lt fits) (omega arith, omega arith, omega arith)

-- `sleep` passes on the duration that it was given, in a form that `nanosleep` takes, as long as the
-- nanoseconds are less than a millisecond.
pub sleep_lem :
    (ms ns : ℕ)
    → ns < 1000000
    → ((sleep ms ns).tv_sec * 1000000000 + (sleep ms ns).tv_nsec ≡ ms * 1000000 + ns)
      × ((sleep ms ns).tv_nsec < 1000000000)
unfolding sleep
sleep_lem ms ns h = (omega arith, omega arith)
