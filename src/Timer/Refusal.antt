-- ===== src/Timer/Refusal.antt =====
-- What the operations on timers do to a timer that is not valid.
use mediawiki_php_excimer.Prelude.{◌≡◌, false, List}
use mediawiki_php_excimer.Run.{ok}
use mediawiki_php_excimer.Timespec.{Timespec}
use mediawiki_php_excimer.Timerlib.{PosixApi, no_time}
use mediawiki_php_excimer.Timer.{Ptr}
use mediawiki_php_excimer.Timer.Ring.{mem}
use mediawiki_php_excimer.Timer.Life.{
  Thread, uninitialised, warn, timer_start, timer_stop, timer_destroy, timer_get_time,
}
use mediawiki_php_excimer.Timer.Lives.{Lives}

module _ ⦃O : PosixApi⦄ where
  -- On a timer that is not valid the start and the stop warn and do nothing else, the destruction
  -- does nothing, and the time that is left is zero: the system is not called.
  pub invalid_refused :
      (st : Thread O) (live : List Ptr) (p : Ptr) (period initial : Timespec)
      → Lives st live
      → mem p live ≡ false
      → (timer_start p period initial st ≡ warn uninitialised st)
        × (timer_stop p st ≡ warn uninitialised st)
        × (timer_destroy p st ≡ ok st)
        × (timer_get_time p st ≡ (no_time, st))
  unfolding timer_start timer_stop timer_destroy timer_get_time
  invalid_refused st live p period initial v out =
      (rw (v.valid p, out), rw (v.valid p, out), rw (v.valid p, out), rw (v.valid p, out))
