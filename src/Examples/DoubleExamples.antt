-- ===== src/Examples/DoubleExamples.antt =====
-- The theorem on timerlib_timespec_from_double at numbers of milliseconds.
use mediawiki_php_excimer.Prelude.{ℕ, ◌*◌, ◌/◌, ◌%◌, ◌^◌, ◌<◌, ◌≤◌, refl, Bool, true, false, arith}
use mediawiki_php_excimer.Timespec.{IsNormal, billion}
use mediawiki_php_excimer.Timespec.Double.{
  DoubleApi, timespec_from_double, timespec_from_double-IsNormal,
}

fits : (x : ℕ) → x / 1000 % 2 ^ 64 < 2 ^ 64
fits x = omega arith

short : (x : ℕ) → Path Bool true true → Path Bool false false → x % 1000 * 1000000 ≤ billion
short x finite positive = omega arith

instance abbrev milliseconds : DoubleApi
milliseconds = record {
  Double = ℕ;
  is_finite = λ x. true;
  is_negative = λ x. false;
  integral = λ x. x / 1000 % 2 ^ 64;
  nanoseconds = λ x. x % 1000 * 1000000;
  stagger = λ random x. x / 2;
  period_ns = λ x. x * 1000000 % 2 ^ 64;
  times_billionth = λ n. n / 1000000;
  over_billion = λ n. n / 1000000;
  default_period = 100;
  integral-lt = fits;
  nanoseconds-le = short;
}

timespec_from_double-IsNormal_example : IsNormal (timespec_from_double 2750)
timespec_from_double-IsNormal_example = timespec_from_double-IsNormal 2750 refl
