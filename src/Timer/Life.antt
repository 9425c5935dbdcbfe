-- ===== src/Timer/Life.antt =====
-- The life cycle of timers: excimer_timer_init, excimer_timer_start, excimer_timer_stop,
-- excimer_timer_destroy, excimer_timer_get_time, excimer_timer_thread_init and
-- excimer_timer_thread_shutdown of excimer_timer.c.
use mediawiki_php_excimer.Prelude.{
  ℕ, ◌+◌, ◌%◌, ◌^◌, ◌-◌, Bool, true, false, not, List, ◌∷◌, ◌==◌, if◌then◌else◌,
}
use mediawiki_php_excimer.Run.{Run, ok, ◌>>=◌}
use mediawiki_php_excimer.Timespec.{Timespec, timespec_is_zero}
use mediawiki_php_excimer.Timerlib.{
  PosixApi, PosixTimer, no_time, tl_init, tl_start, tl_stop, tl_destroy, tl_get_time,
}
use mediawiki_php_excimer.Timer.{Ptr, null, update, PendingList}
use mediawiki_php_excimer.Timer.Pending.{list_remove}

-- The warnings of the functions.
pub data Warning : Type 0 where
  uninitialised zero_time other_thread still_active : Warning

-- The fields of an `excimer_timer` beside those of the pending list. `own` says that `tls` is that of
-- the running thread; the NULL of a destroyed timer is `false`.
pub record Timer : Type 0 where
  pub is_valid : Bool
  pub is_running : Bool
  pub tl_timer : PosixTimer
  pub own : Bool

-- The state of a thread, with the warnings it has printed, the last first.
pub record Thread (O : PosixApi) : Type 0 where
  pub pending : PendingList
  pub timers : Ptr → Timer
  pub timers_active : ℕ
  pub warnings : List Warning
  pub world : O.World

module _ ⦃O : PosixApi⦄ where
  abbrev pub warn : Warning → Thread O → Thread O
  warn w st = record st { warnings = w ∷ st.warnings }

  abbrev pub set_timer : Ptr → Timer → Thread O → Thread O
  set_timer p t st = record st { timers = update st.timers p t }

  -- `memset`: no link and no event.
  unfoldable pub clear_pending : Ptr → PendingList → PendingList
  clear_pending p m = record m {
    next = update m.next p null;
    prev = update m.prev p null;
    event_count = update m.event_count p 0;
  }

  -- What follows timerlib_timer_init; `true` is SUCCESS.
  unfoldable pub initialised : Ptr → Thread O → Bool × PosixTimer × O.World → Run (Bool × Thread O)
  initialised p st (false, t, w) = do
    r ← tl_destroy t w
    ok (
      false,
      set_timer p (record { is_valid = false; is_running = false; tl_timer = r.0; own = true })
          (record st { world = r.1 }),
    )
  initialised p st (true, t, w) = ok (
    true,
    set_timer p (record { is_valid = true; is_running = false; tl_timer = t; own = true })
        (record st { world = w; timers_active = (st.timers_active + 1) % 2 ^ 64 }),
  )

  unfoldable pub timer_init : ℕ → Ptr → ℕ → Thread O → Run (Bool × Thread O)
  timer_init fuel p event_type st = do
    result ← tl_init fuel event_type st.world
    initialised p (record st { pending = clear_pending p st.pending }) result

  abbrev pub started : Ptr → Thread O → Bool × O.World → Thread O
  started p st (false, w) = record st { world = w }
  started p st (true, w) =
      set_timer p (record (st.timers p) { is_running = true }) (record st { world = w })

  unfoldable pub timer_start : Ptr → Timespec → Timespec → Thread O → Thread O
  timer_start p period initial st =
      let first = if timespec_is_zero initial then period else initial in
      if not ((st.timers p).is_valid)
      then warn uninitialised st
      else if timespec_is_zero first
      then warn zero_time st
      else started p st (tl_start (st.timers p).tl_timer period first st.world)

  abbrev pub stopped : Ptr → Thread O → Bool × O.World → Thread O
  stopped p st (false, w) = record st { world = w }
  stopped p st (true, w) =
      set_timer p (record (st.timers p) { is_running = false }) (record st { world = w })

  unfoldable pub timer_stop : Ptr → Thread O → Thread O
  timer_stop p st =
      if not ((st.timers p).is_valid)
      then warn uninitialised st
      else if (st.timers p).is_running
      then stopped p st (tl_stop (st.timers p).tl_timer st.world)
      else st

  -- The system is told to stop and to destroy the timer.
  unfoldable pub release : Timer → O.World → Run (PosixTimer × O.World)
  release t w = tl_destroy t.tl_timer (if t.is_running then (tl_stop t.tl_timer w).1 else w)

  abbrev pub removed : Ptr → Thread O → PosixTimer × O.World → PendingList → Thread O
  removed p st r m =
      set_timer p (record { is_valid = false; is_running = false; tl_timer = r.0; own = false })
        (record st {
          world = r.1;
          timers_active = (st.timers_active + (2 ^ 64 - 1)) % 2 ^ 64;
          pending = m;
        })

  unfoldable pub timer_destroy : Ptr → Thread O → Run (Thread O)
  timer_destroy p st =
      if not ((st.timers p).is_valid)
      then ok st
      else if not ((st.timers p).own)
      then ok (warn other_thread st)
      else do
        r ← release (st.timers p) st.world
        m ← list_remove p st.pending
        ok (removed p st r m)

  unfoldable pub timer_get_time : Ptr → Thread O → Timespec × Thread O
  timer_get_time p st =
      if (st.timers p).is_valid
      then if (st.timers p).is_running
        then (let r = tl_get_time (st.timers p).tl_timer st.world in
            (r.1, record st { world = r.2 }))
        else (no_time, st)
      else (no_time, st)

  -- A new thread-local record: an empty list and no timer.
  unfoldable pub thread_init : Thread O → Thread O
  thread_init st = record st { pending = record st.pending { head = null }; timers_active = 0 }

  unfoldable pub thread_shutdown : Thread O → Thread O
  thread_shutdown st = if st.timers_active == 0 then st else warn still_active st
