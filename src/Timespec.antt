-- ===== src/Timespec.antt =====
-- timerlib/timerlib_common.c and timerlib/timerlib.h: times of seconds and nanoseconds. The seconds,
-- a `time_t`, are their 64-bit pattern, in which the subtraction wraps; the nanoseconds, a `long`,
-- are those of a time that is not negative.
pub mod Double
use mediawiki_php_excimer.Prelude.{
  ℕ, ◌+◌, ◌-◌, ◌*◌, ◌%◌, ◌^◌, ◌≡◌, ◌≢◌, inl, inr, ◌⊎◌, Bool-cases, Bool, ◌&&◌, arith, ◌==◌, ltb,
  if◌then◌else◌, ◌<◌,
}

pub record Timespec : Type 0 where
  pub tv_sec : ℕ
  pub tv_nsec : ℕ

abbrev pub billion : ℕ
billion = 1000000000

-- `a += b`.
unfoldable pub timespec_add : Timespec → Timespec → Timespec
timespec_add a b =
    let sec = (a.tv_sec + b.tv_sec) % 2 ^ 64 in
    let nsec = a.tv_nsec + b.tv_nsec in
    if ltb billion nsec
    then record { tv_sec = (sec + 1) % 2 ^ 64; tv_nsec = nsec - billion }
    else record { tv_sec = sec; tv_nsec = nsec }

-- `a -= b`.
unfoldable pub timespec_subtract : Timespec → Timespec → Timespec
timespec_subtract a b =
    let sec = (a.tv_sec + (2 ^ 64 - b.tv_sec)) % 2 ^ 64 in
    if ltb a.tv_nsec b.tv_nsec
    then record {
      tv_sec = (sec + (2 ^ 64 - 1)) % 2 ^ 64;
      tv_nsec = a.tv_nsec + (billion - b.tv_nsec);
    }
    else record { tv_sec = sec; tv_nsec = a.tv_nsec - b.tv_nsec }

unfoldable pub timespec_is_zero : Timespec → Bool
timespec_is_zero ts = (ts.tv_sec == 0) && (ts.tv_nsec == 0)

-- The nanoseconds of a time, an `uint64_t`.
unfoldable pub timespec_to_ns : Timespec → ℕ
timespec_to_ns ts = (ts.tv_nsec + ts.tv_sec * billion) % 2 ^ 64

-- A time in its normal form.
pub record IsNormal (ts : Timespec) : Type 0 where
  pub sec : ts.tv_sec < 2 ^ 64
  pub nsec : ts.tv_nsec < billion

-- Adding two times in normal form adds their nanoseconds, modulo 2^64.
pub timespec_to_ns-timespec_add :
    (a b : Timespec)
    → IsNormal a
    → IsNormal b
    → timespec_to_ns (timespec_add a b) ≡ (timespec_to_ns a + timespec_to_ns b) % 2 ^ 64
unfolding timespec_add timespec_to_ns
timespec_to_ns-timespec_add a b ha hb = ground arith

-- The sum of two times in normal form is in normal form but for one case: nanoseconds that add up to
-- a full second are not carried.
pub timespec_add-IsNormal :
    (a b : Timespec)
    → IsNormal a
    → IsNormal b
    → (IsNormal (timespec_add a b) × (a.tv_nsec + b.tv_nsec ≢ billion))
      ⊎ (((timespec_add a b).tv_nsec ≡ billion) × (a.tv_nsec + b.tv_nsec ≡ billion))
unfolding timespec_add
timespec_add-IsNormal a b ha hb = elim (Bool-cases ((a.tv_nsec + b.tv_nsec) == billion)) [
  | inl full ↦ inr (ground arith, ground arith)
  | inr other ↦ inl (record { sec = ground arith; nsec = ground arith }, ground arith)
]

-- The difference of two times in normal form is in normal form, also where it wraps, and adding the
-- nanoseconds of the subtrahend leads back, modulo 2^64.
pub timespec_to_ns-timespec_subtract :
    (a b : Timespec)
    → IsNormal a
    → IsNormal b
    → IsNormal (timespec_subtract a b)
      × ((timespec_to_ns (timespec_subtract a b) + timespec_to_ns b) % 2 ^ 64 ≡ timespec_to_ns a)
unfolding timespec_subtract timespec_to_ns
timespec_to_ns-timespec_subtract a b ha hb =
    (record { sec = ground arith; nsec = ground arith }, ground arith)
