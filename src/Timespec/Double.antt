-- ===== src/Timespec/Double.antt =====
-- timerlib_timespec_from_double of timerlib/timerlib_common.c and timerlib_timespec_to_double of
-- timerlib/timerlib.h. The floating-point numbers are an
-- interface.
use mediawiki_php_excimer.Prelude.{
  ℕ, ◌+◌, ◌-◌, ◌%◌, ◌^◌, ◌<◌, ◌≤◌, ◌≡◌, inl, inr, Bool, true, false, arith, leb, if◌then◌else◌,
  Bool-cases,
}
use mediawiki_php_excimer.Timespec.{Timespec, IsNormal, billion, timespec_to_ns}

pub record DoubleApi : Type 1 where
  pub Double : Type 0
  -- neither an infinity nor a NaN
  pub is_finite : Double → Bool
  -- `source < 0`
  pub is_negative : Double → Bool
  -- of the parts that modf gives: `(time_t)integral`, as its 64-bit pattern, and
  -- `(long)(fractional * 1e9)`
  pub integral : Double → ℕ
  pub nanoseconds : Double → ℕ
  -- `php_mt_rand() * period / UINT32_MAX`
  pub stagger : (random : ℕ) → Double → Double
  -- `period * EXCIMER_BILLION`, as an `uint64_t`
  pub period_ns : Double → ℕ
  -- a number of nanoseconds `* 1e-9`, and `/ 1e9`
  pub times_billionth : ℕ → Double
  pub over_billion : ℕ → Double
  -- EXCIMER_DEFAULT_PERIOD
  pub default_period : Double
  pub integral-lt : (x : Double) → integral x < 2 ^ 64
  -- the fraction is below one, but its product may be rounded up to 1e9
  pub nanoseconds-le :
      (x : Double) → is_finite x ≡ true → is_negative x ≡ false → nanoseconds x ≤ billion

module _ ⦃D : DoubleApi⦄ where
  unfoldable pub timespec_from_double : D.Double → Timespec
  timespec_from_double source =
      if D.is_negative source
      then record { tv_sec = 0; tv_nsec = 0 }
      else if leb billion (D.nanoseconds source)
      then record {
        tv_sec = (D.integral source + 1) % 2 ^ 64;
        tv_nsec = D.nanoseconds source - billion;
      }
      else record { tv_sec = D.integral source; tv_nsec = D.nanoseconds source }

  unfoldable pub timespec_to_double : Timespec → D.Double
  timespec_to_double ts = D.times_billionth (timespec_to_ns ts)

  -- The time of a finite number is in normal form, also where the fraction is rounded up to a second.
  pub timespec_from_double-IsNormal :
      (source : D.Double) → D.is_finite source ≡ true → IsNormal (timespec_from_double source)
  unfolding timespec_from_double
  timespec_from_double-IsNormal source finite = elim (Bool-cases (D.is_negative source)) [
    | inl negative ↦ rw negative (record { sec = omega arith; nsec = omega arith })
    | inr positive ↦
        let small = D.nanoseconds-le source finite positive in
        let fits = D.integral-lt source in
        elim (Bool-cases (leb billion (D.nanoseconds source))) [
          | inl full ↦ rw (positive, full) (record { sec = omega arith; nsec = ground arith })
          | inr part ↦ rw (positive, part) (record { sec = fits; nsec = ground arith })
        ]
  ]
