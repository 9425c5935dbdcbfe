-- ===== src/TimerObject.antt =====
-- The object ExcimerTimer of excimer.c and the function excimer_set_timeout. excimer_set_timeout
-- takes the time that its floating-point number stands for.
pub mod Starts
pub mod Timeout
use mediawiki_php_excimer.Prelude.{ℕ, zero, suc, Bool, true, false, ◌||◌, not, if◌then◌else◌}
use mediawiki_php_excimer.Prelude.Int.{ℤ, pos, negsuc}
use mediawiki_php_excimer.Run.{Run, ok, fault, ◌>>=◌}
use mediawiki_php_excimer.Timespec.{Timespec}
use mediawiki_php_excimer.Timespec.Double.{DoubleApi, timespec_from_double, timespec_to_double}
use mediawiki_php_excimer.Timerlib.{PosixApi, no_time}
use mediawiki_php_excimer.Timer.{Ptr}
use mediawiki_php_excimer.Timer.Life.{
  Thread, timer_init, timer_start, timer_stop, timer_destroy, timer_get_time,
}
use mediawiki_php_excimer.Profiler.{Callback, no_callback, uncallable, callable}

-- An ExcimerTimer_obj; `timer` is the address of its timer.
pub record TimerObject : Type 0 where
  pub period : Timespec
  pub initial : Timespec
  pub event_type : ℕ
  pub z_callback : Callback
  pub need_reinit : Bool
  pub timer : Ptr

-- ExcimerTimer_new, in zeroed memory.
unfoldable pub new_object : Ptr → TimerObject
new_object timer = record {
  period = no_time;
  initial = no_time;
  event_type = 0;
  z_callback = no_callback;
  need_reinit = true;
  timer = timer;
}

-- ExcimerTimer::setEventType, where `false` is the warning on an invalid type.
unfoldable pub set_event_type : TimerObject → ℤ → Bool × TimerObject
set_event_type o (pos zero) = (true, record o { event_type = 0; need_reinit = true })
set_event_type o (pos (suc zero)) = (true, record o { event_type = 1; need_reinit = true })
set_event_type o (pos (suc (suc n))) = (false, o)
set_event_type o (negsuc n) = (false, o)

-- ExcimerTimer::setInterval and ExcimerTimer::setPeriod.
unfoldable pub set_interval : ⦃D : DoubleApi⦄ → TimerObject → D.Double → TimerObject
set_interval o initial = record o { initial = timespec_from_double initial }

unfoldable pub set_period : ⦃D : DoubleApi⦄ → TimerObject → D.Double → TimerObject
set_period o period = record o { period = timespec_from_double period }

-- ExcimerTimer_set_callback; `false` is FAILURE. Null is not callable.
unfoldable pub set_callback : TimerObject → Callback → Bool × TimerObject
set_callback o callable = (true, record o { z_callback = callable })
set_callback o no_callback = (false, o)
set_callback o uncallable = (false, o)

-- The method ExcimerTimer::setCallback, to which null is no callback.
unfoldable pub set_callback_method : TimerObject → Callback → TimerObject
set_callback_method o no_callback = record o { z_callback = no_callback }
set_callback_method o uncallable = (set_callback o uncallable).1
set_callback_method o callable = (set_callback o callable).1

module _ ⦃O : PosixApi⦄ where
  unfoldable pub arm : TimerObject → Thread O → TimerObject × Thread O
  arm o st = (o, timer_start o.timer o.period o.initial st)

  unfoldable pub arm_new : TimerObject → Bool × Thread O → TimerObject × Thread O
  arm_new o (false, st) = (o, st)
  arm_new o (true, st) = arm (record o { need_reinit = false }) st

  -- ExcimerTimer_start.
  unfoldable pub start : ℕ → TimerObject → Thread O → Run (TimerObject × Thread O)
  start fuel o st =
      if o.need_reinit || not ((st.timers o.timer).is_valid)
      then (do
        st1 ← (if (st.timers o.timer).is_valid then timer_destroy o.timer st else ok st)
        r ← timer_init fuel o.timer o.event_type st1
        ok (arm_new o r))
      else ok (arm o st)

  -- ExcimerTimer_stop, which is the method ExcimerTimer::stop too.
  unfoldable pub stop : TimerObject → Thread O → Thread O
  stop o st = if (st.timers o.timer).is_valid then timer_stop o.timer st else st

  -- The method ExcimerTimer::start.
  unfoldable pub method_start : ℕ → TimerObject → Thread O → Run (TimerObject × Thread O)
  method_start fuel o st = start fuel o (if (st.timers o.timer).is_running then stop o st else st)

  -- ExcimerTimer::getTime.
  unfoldable pub get_time : ⦃D : DoubleApi⦄ → TimerObject → Thread O → D.Double × Thread O
  get_time o st = let (ts, st') = timer_get_time o.timer st in (timespec_to_double ts, st')

  -- ExcimerTimer_free_object: the timer goes with the object.
  unfoldable pub free_object : TimerObject → Thread O → Run (Thread O)
  free_object o st = if (st.timers o.timer).is_valid then timer_destroy o.timer st else ok st

  module _ {S : Type 0} (call : ℕ → TimerObject × Thread O × S → TimerObject × Thread O × S) where
    -- `call` is the user's function, on the object, the thread and the state `S` of the script.
    unfoldable pub call_function :
        Callback → ℕ → TimerObject × Thread O × S → TimerObject × Thread O × S
    call_function no_callback event_count (o, st, s) = (o, st, s)
    call_function uncallable event_count (o, st, s) = (o, stop o st, s)
    call_function callable event_count (o, st, s) = call event_count (o, st, s)

    -- ExcimerTimer_event.
    unfoldable pub event : ℕ → TimerObject × Thread O × S → TimerObject × Thread O × S
    event event_count (o, st, s) = call_function o.z_callback event_count (o, st, s)

  -- The end of excimer_set_timeout. After a FAILURE the object has been released, and the write of
  -- its interval is a use of freed memory.
  unfoldable pub timeout_started :
      ℕ → Timespec → Thread O → Bool × TimerObject → Run (TimerObject × Thread O)
  timeout_started fuel initial st (false, o) = fault
  timeout_started fuel initial st (true, o) = start fuel (record o { initial = initial }) st

  unfoldable pub set_timeout :
      ℕ → Callback → Timespec → Ptr → Thread O → Run (TimerObject × Thread O)
  set_timeout fuel callback initial timer st =
      timeout_started fuel initial st (set_callback (new_object timer) callback)
