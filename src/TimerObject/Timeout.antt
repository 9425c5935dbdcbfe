-- ===== src/TimerObject/Timeout.antt =====
-- excimer_set_timeout with a callable callback.
use mediawiki_php_excimer.Prelude.{ℕ, ◌≢◌, List}
use mediawiki_php_excimer.Timespec.{Timespec}
use mediawiki_php_excimer.Timerlib.{PosixApi}
use mediawiki_php_excimer.Timerlib.Started.{Reliable}
use mediawiki_php_excimer.Timer.{Ptr, null}
use mediawiki_php_excimer.Timer.Life.{Thread}
use mediawiki_php_excimer.Timer.Lives.{Lives}
use mediawiki_php_excimer.Profiler.{callable}
use mediawiki_php_excimer.TimerObject.{
  TimerObject, new_object, set_callback, timeout_started, set_timeout,
}
use mediawiki_php_excimer.TimerObject.Starts.{Starts, start-Starts}

-- The object whose timer excimer_set_timeout starts.
abbrev timeout_object : Ptr → Timespec → TimerObject
unfolding new_object
timeout_object timer initial = record (new_object timer) {
  z_callback = callable;
  initial = initial;
}

module _ ⦃O : PosixApi⦄ where
  -- With a callable callback excimer_set_timeout starts the timer of a new object, once, after the
  -- time that it is given.
  set_timeout-Starts :
      (initial : Timespec) (timer : Ptr) (st : Thread O) (live : List Ptr)
      → Reliable
      → timer ≢ null
      → Lives st live
      → (fuel : ℕ) × Starts
          (timeout_object timer initial)
          live
          (set_timeout fuel callable initial timer st)
  unfolding set_timeout timeout_started set_callback timeout_object new_object
  set_timeout-Starts initial timer st live reliable hp v =
      start-Starts (timeout_object timer initial) st live reliable hp v
