-- ===== src/Profiler.antt =====
-- The object ExcimerProfiler of excimer.c: its start and stop, the timer event that takes a sample,
-- and the flush that hands the log over.
pub mod Event
pub mod Starts
pub mod Tick
pub mod Ticks
pub mod Delivered
pub mod Expiries
pub mod Interrupts
use mediawiki_php_excimer.Prelude.{
  ℕ, zero, suc, ◌-◌, ◌^◌, Bool, true, false, ◌||◌, ◌&&◌, not, List, [], ◌∷◌, length, leb,
  if◌then◌else◌,
}
use mediawiki_php_excimer.Prelude.Int.{ℤ, pos, negsuc}
use mediawiki_php_excimer.Run.{Run, ok, ◌>>=◌}
use mediawiki_php_excimer.Zend.{HashApi}
use mediawiki_php_excimer.Timespec.{Timespec, timespec_to_ns}
use mediawiki_php_excimer.Timespec.Double.{DoubleApi, timespec_from_double}
use mediawiki_php_excimer.Timerlib.{PosixApi}
use mediawiki_php_excimer.Timer.{Ptr}
use mediawiki_php_excimer.Timer.Life.{Thread, timer_init, timer_start, timer_stop, timer_destroy}
use mediawiki_php_excimer.Log.{Log, init, copy_options, set_max_depth}
use mediawiki_php_excimer.Log.Sample.{Call, add}

-- `z_callback`: null, or a value that is callable now or is not.
pub data Callback : Type 0 where
  no_callback uncallable callable : Callback

-- An ExcimerProfiler_obj; `log` is the log that `z_log` holds, `timer` the address of the timer.
pub record Profiler (Z : HashApi) : Type 0 where
  pub period : Timespec
  pub initial : Timespec
  pub event_type : ℕ
  pub log : Log Z
  pub z_callback : Callback
  pub max_samples : ℤ
  pub need_reinit : Bool
  pub timer : Ptr

module _ ⦃Z : HashApi⦄ ⦃O : PosixApi⦄ where
  abbrev pub start_timer : Profiler Z → Thread O → Profiler Z × Thread O
  start_timer p st = (p, timer_start p.timer p.period p.initial st)

  abbrev pub reinitialised : Profiler Z → Bool × Thread O → Profiler Z × Thread O
  reinitialised p (false, st) = (p, st)
  reinitialised p (true, st) = start_timer (record p { need_reinit = false }) st

  -- ExcimerProfiler_start.
  unfoldable pub profiler_start : ℕ → Profiler Z → Thread O → Run (Profiler Z × Thread O)
  profiler_start fuel p st =
      if p.need_reinit || not ((st.timers p.timer).is_valid)
      then (do
        st1 ← (if (st.timers p.timer).is_valid then timer_destroy p.timer st else ok st)
        r ← timer_init fuel p.timer p.event_type st1
        ok (reinitialised p r))
      else ok (start_timer p st)

  -- ExcimerProfiler_stop.
  unfoldable pub profiler_stop : Profiler Z → Thread O → Thread O
  profiler_stop p st = if (st.timers p.timer).is_valid then timer_stop p.timer st else st

  -- The method ExcimerProfiler::start.
  unfoldable pub start_method : ℕ → Profiler Z → Thread O → Run (Profiler Z × Thread O)
  start_method fuel p st =
      profiler_start fuel p (if (st.timers p.timer).is_running then profiler_stop p st else st)

module _ ⦃Z : HashApi⦄ ⦃O : PosixApi⦄ where
  -- ExcimerProfiler_free_object: the timer goes with the object.
  unfoldable pub free_profiler : Profiler Z → Thread O → Run (Thread O)
  free_profiler p st = if (st.timers p.timer).is_valid then timer_destroy p.timer st else ok st

-- A new log with the options of the old one. `memory` is what the new object's memory holds.
unfoldable pub rotated : ⦃Z : HashApi⦄ → Log Z → Log Z → Log Z
rotated memory log = copy_options (init memory) log

module _ ⦃Z : HashApi⦄ ⦃O : PosixApi⦄ {S : Type 0} (deliver : Log Z → S → S) (memory : Log Z) where
  -- What the flush does with the old log: `deliver` is the user's function, on the state `S` of the
  -- script; it leaves the profiler alone.
  abbrev hand_over : Callback → Log Z → Profiler Z → Thread O → S → Profiler Z × Thread O × S
  hand_over no_callback old p st s = (p, st, s)
  hand_over uncallable old p st s = (p, profiler_stop p st, s)
  hand_over callable old p st s = (p, st, deliver old s)

  -- ExcimerProfiler_flush, with the old log.
  unfoldable pub flush : Profiler Z → Thread O → S → Log Z × (Profiler Z × Thread O × S)
  flush p st s =
      (p.log, hand_over p.z_callback p.log (record p { log = rotated memory p.log }) st s)

  -- ExcimerProfiler::flush, which returns the old log; ExcimerProfiler::getLog; ExcimerProfiler::stop.
  unfoldable pub flush_method : Profiler Z → Thread O → S → Log Z × (Profiler Z × Thread O × S)
  flush_method p st s = flush p st s

  unfoldable pub get_log : Profiler Z → Log Z
  get_log p = p.log

  unfoldable pub stop_method : Profiler Z → Thread O → Thread O
  stop_method p st = profiler_stop p st

  -- ExcimerProfiler_dtor: what the log still holds is handed over.
  unfoldable pub dtor : Profiler Z → Thread O → S → Profiler Z × Thread O × S
  dtor p st s = if leb 1 (length p.log.entries) then (flush p st s).1 else (p, st, s)

  -- `log->entries_size >= profiler->max_samples`, compared as `size_t`, unless `max_samples` is zero.
  unfoldable pub is_full : ℤ → ℕ → Bool
  is_full (pos zero) size = false
  is_full (pos (suc n)) size = leb (suc n) size
  is_full (negsuc n) size = leb (2 ^ 64 - suc n) size

  -- The sample was added.
  unfoldable pub after_sample : Profiler Z → Thread O → S → Profiler Z × Thread O × S
  after_sample p st s =
      if is_full p.max_samples (length p.log.entries) then (flush p st s).1 else (p, st, s)

  -- ExcimerProfiler_event: `stack` is `EG(current_execute_data)`, `now` the time of the clock.
  unfoldable pub event :
      ℕ → List Call → Timespec → Profiler Z → Thread O → S → Run (Profiler Z × Thread O × S)
  event event_count stack now p st s = do
    log ← add p.log stack event_count (timespec_to_ns now)
    ok (after_sample (record p { log = log }) st s)

module _ ⦃Z : HashApi⦄ ⦃D : DoubleApi⦄ where
  -- ExcimerProfiler_new, in zeroed memory but for that of the log; `depth` is the INI entry
  -- excimer.default_max_depth, `now` the time of the clock, `random` what php_mt_rand returns.
  unfoldable pub new_profiler : Log Z → ℤ → Timespec → ℕ → Ptr → Profiler Z
  new_profiler memory depth now random timer = record {
    period = timespec_from_double D.default_period;
    initial = timespec_from_double (D.stagger random D.default_period);
    event_type = 0;
    log = record (init memory) {
      max_depth = depth;
      epoch = timespec_to_ns now;
      period = D.period_ns D.default_period;
    };
    z_callback = no_callback;
    max_samples = pos 0;
    need_reinit = true;
    timer = timer;
  }

  -- ExcimerProfiler::setPeriod, which staggers the start.
  unfoldable pub set_profiler_period : Profiler Z → ℕ → D.Double → Profiler Z
  set_profiler_period p random period = record p {
    period = timespec_from_double period;
    initial = timespec_from_double (D.stagger random period);
    log = record p.log { period = D.period_ns period };
  }

-- ExcimerProfiler::setEventType, where `false` is the warning on an invalid type: EXCIMER_REAL is 0
-- and EXCIMER_CPU is 1.
unfoldable pub set_event_type : ⦃Z : HashApi⦄ → Profiler Z → ℤ → Bool × Profiler Z
set_event_type p (pos zero) = (true, record p { event_type = 0; need_reinit = true })
set_event_type p (pos (suc zero)) = (true, record p { event_type = 1; need_reinit = true })
set_event_type p (pos (suc (suc n))) = (false, p)
set_event_type p (negsuc n) = (false, p)

-- ExcimerProfiler::setMaxDepth, setFlushCallback (`false` is the warning) and clearFlushCallback.
unfoldable pub set_depth : ⦃Z : HashApi⦄ → Profiler Z → ℤ → Profiler Z
set_depth p depth = record p { log = set_max_depth p.log depth }

unfoldable pub set_flush_callback : ⦃Z : HashApi⦄ → Profiler Z → Callback → ℤ → Bool × Profiler Z
set_flush_callback p callable max_samples =
    (true, record p { z_callback = callable; max_samples = max_samples })
set_flush_callback p no_callback max_samples = (false, p)
set_flush_callback p uncallable max_samples = (false, p)

unfoldable pub clear_flush_callback : ⦃Z : HashApi⦄ → Profiler Z → Profiler Z
clear_flush_callback p = record p { z_callback = no_callback; max_samples = pos 0 }
