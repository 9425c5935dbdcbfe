-- ===== src/Timerlib/Kqueue/Remaining.antt =====
-- What timerlib_timer_get_time of the kqueue backend returns.
use mediawiki_php_excimer.Prelude.{◌+◌, ◌%◌, ◌^◌, ◌≡◌, ◌≢◌, ◌∙◌, inl, inr, some}
use mediawiki_php_excimer.Timespec.{
  Timespec, billion, IsNormal, timespec_to_ns, timespec_add, timespec_add-IsNormal,
  timespec_to_ns-timespec_add, timespec_to_ns-timespec_subtract,
}
use mediawiki_php_excimer.Timerlib.Kqueue.{KqueueApi, KqueueTimer, kqueue_get_time}

module _ ⦃K : KqueueApi⦄ where
  -- The time that is left is, in nanoseconds modulo 2^64, what added to the time of the clock gives
  -- one period after the last expiry, unless the nanoseconds of the two add up to exactly a second:
  -- the initial delay is not taken into account, so that a timer without a period has the negative
  -- of the time since its last expiry left.
  pub kqueue_get_time-period :
      (memory now : Timespec) (t : KqueueTimer) (w w' : K.World)
      → K.clock_gettime w ≡ (some now, w')
      → IsNormal t.period
      → IsNormal t.last_fired_at
      → IsNormal now
      → t.period.tv_nsec + t.last_fired_at.tv_nsec ≢ billion
      → (timespec_to_ns (kqueue_get_time memory t w).0 + timespec_to_ns now) % 2 ^ 64
        ≡ (timespec_to_ns t.period + timespec_to_ns t.last_fired_at) % 2 ^ 64
  unfolding kqueue_get_time
  kqueue_get_time-period memory now t w w' e hp hl hn carried =
      elim (timespec_add-IsNormal t.period t.last_fired_at hp hl) [
        | inl (normal, other) ↦ rw e (
            (timespec_to_ns-timespec_subtract (timespec_add t.period t.last_fired_at) now normal
              hn).1
            ∙ timespec_to_ns-timespec_add t.period t.last_fired_at hp hl)
        | inr (full, sum) ↦ absurd (carried sum)
      ]
