-- ===== src/Timerlib.antt =====
-- timerlib/timerlib_posix.c and timerlib/timerlib_posix.h: a timer of the system whose expiries a
-- handler thread reports. The system calls are an interface, since their code is not here; `World` is
-- what they act on. `timer_create` takes the clock of the timer, by timerlib_map_clock of Wrappers.
pub mod Started
pub mod Handler
pub mod Kqueue
pub mod Wrappers
use mediawiki_php_excimer.Prelude.{
  ℕ, zero, suc, ◌≡◌, ◌<◌, Bool, true, false, Option, none, some, if◌then◌else◌,
}
use mediawiki_php_excimer.Run.{Run, ok, out_of_fuel, blocked, ◌>>=◌}
use mediawiki_php_excimer.Timespec.{Timespec, timespec_is_zero}

-- A thread that waits for the handler thread is told of an error at once, wakes up early, or wakes up
-- after the handler thread stored its ID in `tid` and set `ready`.
pub data Wait : Type 0 where
  wait_error spurious : Wait
  notified : (tid : ℕ) → Wait

pub record PosixApi : Type 1 where
  pub World : Type 0
  -- the thread, and its ID if it has already called timerlib_notify_ready; or an error
  pub pthread_create : World → Option (ℕ × Option ℕ) × World
  pub pthread_cond_wait : World → Wait × World
  -- only finitely many wake-ups in a row are spurious
  pub spurious_left : World → ℕ
  pub spurious-lt :
      (w : World)
      → (pthread_cond_wait w).0 ≡ spurious
      → spurious_left (pthread_cond_wait w).1 < spurious_left w
  -- the clock, the thread to be signalled
  pub timer_create : ℕ → ℕ → World → Option ℕ × World
  -- `true` is success: `it_interval` and `it_value`
  pub timer_settime : ℕ → Timespec → Timespec → World → Bool × World
  -- `it_value`
  pub timer_gettime : ℕ → World → Option Timespec × World
  pub timer_delete : ℕ → World → Bool × World
  pub pthread_kill : ℕ → World → Bool × World
  pub pthread_join : ℕ → World → Bool × World

-- `ready_locked` says that the thread that initialises the timer holds `ready_mutex`.
pub record PosixTimer : Type 0 where
  pub timer : ℕ
  pub timer_valid : Bool
  pub thread : ℕ
  pub thread_valid : Bool
  pub tid : ℕ
  pub clock : ℕ
  pub ready : Bool
  pub killed : Bool
  pub ready_locked : Bool

abbrev pub no_time : Timespec
no_time = record { tv_sec = 0; tv_nsec = 0 }

-- The fields that an initialiser does not name are zero.
abbrev pub blank : ℕ → PosixTimer
blank clock = record {
  timer = 0;
  timer_valid = false;
  thread = 0;
  thread_valid = false;
  tid = 0;
  clock = clock;
  ready = false;
  killed = false;
  ready_locked = false;
}

module _ ⦃O : PosixApi⦄ where
  abbrev awoken :
      (PosixTimer → O.World → Run (Bool × PosixTimer × O.World))
      → PosixTimer
      → Wait × O.World
      → Run (Bool × PosixTimer × O.World)
  awoken again t (wait_error, w) = ok (false, t, w)
  awoken again t (spurious, w) = again t w
  awoken again t (notified tid, w) = again (record t { tid = tid; ready = true }) w

  -- The loop that waits for `ready`, with the mutex, cut short after `fuel` rounds, and the unlock that
  -- follows it; `false` is an error, which leaves the mutex locked.
  unfoldable pub await_ready : ℕ → PosixTimer → O.World → Run (Bool × PosixTimer × O.World)
  await_ready zero t w = out_of_fuel
  await_ready (suc fuel) t w =
      if t.ready
      then ok (true, record t { ready_locked = false }, w)
      else awoken (await_ready fuel) t (O.pthread_cond_wait w)

  abbrev report : PosixTimer → Option ℕ → PosixTimer
  report t none = t
  report t (some tid) = record t { tid = tid; ready = true }

  abbrev created : PosixTimer → Option ℕ × O.World → Run (Bool × PosixTimer × O.World)
  created t (none, w) = ok (false, t, w)
  created t (some timer, w) = ok (true, record t { timer = timer; timer_valid = true }, w)

  unfoldable pub create_timer : Bool × PosixTimer × O.World → Run (Bool × PosixTimer × O.World)
  create_timer (false, t, w) = ok (false, t, w)
  create_timer (true, t, w) = created t (O.timer_create t.clock t.tid w)

  abbrev threaded :
      ℕ → PosixTimer → Option (ℕ × Option ℕ) × O.World → Run (Bool × PosixTimer × O.World)
  threaded fuel t (none, w) = ok (false, t, w)
  threaded fuel t (some (thread, tid), w) =
      await_ready fuel
        (record (report (record t { thread = thread; thread_valid = true }) tid) {
          ready_locked = true;
        })
        w
      >>= create_timer

  unfoldable pub tl_init : ℕ → ℕ → O.World → Run (Bool × PosixTimer × O.World)
  tl_init fuel clock w = threaded fuel (blank clock) (O.pthread_create w)

  -- A zero delay would disarm the timer.
  unfoldable pub tl_start : PosixTimer → Timespec → Timespec → O.World → Bool × O.World
  tl_start t period initial w =
      if t.timer_valid
      then O.timer_settime t.timer period
          (if timespec_is_zero initial then record initial { tv_nsec = 1 } else initial) w
      else (false, w)

  -- timerlib_timer_start_oneshot and timerlib_timer_start_periodic.
  unfoldable pub tl_start_oneshot : PosixTimer → Timespec → O.World → Bool × O.World
  tl_start_oneshot t duration w = tl_start t no_time duration w

  unfoldable pub tl_start_periodic : PosixTimer → Timespec → O.World → Bool × O.World
  tl_start_periodic t period w = tl_start t period period w

  unfoldable pub tl_stop : PosixTimer → O.World → Bool × O.World
  tl_stop t w = if t.timer_valid then O.timer_settime t.timer no_time no_time w else (false, w)

  -- With the mutex locked the handler thread waits for it in timerlib_notify_ready, and never exits.
  abbrev join_killed : PosixTimer → Bool × O.World → Run (PosixTimer × O.World)
  join_killed t (false, w) = ok (t, w)
  join_killed t (true, w) =
      if t.ready_locked then blocked else ok (t, (O.pthread_join t.thread w).1)

  -- timerlib_graceful_exit and timerlib_join.
  unfoldable pub end_thread : PosixTimer → O.World → Run (PosixTimer × O.World)
  end_thread t w =
      if t.thread_valid
      then join_killed (record t { thread_valid = false; killed = true })
          (O.pthread_kill t.thread w)
      else ok (t, w)

  unfoldable pub delete_timer : PosixTimer × O.World → PosixTimer × O.World
  delete_timer (t, w) =
      if t.timer_valid
      then (record t { timer_valid = false }, (O.timer_delete t.timer w).1)
      else (t, w)

  unfoldable pub tl_destroy : PosixTimer → O.World → Run (PosixTimer × O.World)
  tl_destroy t w = do r ← end_thread t w; ok (delete_timer r)

  abbrev remaining : Option Timespec × O.World → Bool × Timespec × O.World
  remaining (none, w) = (false, no_time, w)
  remaining (some time, w) = (true, time, w)

  unfoldable pub tl_get_time : PosixTimer → O.World → Bool × Timespec × O.World
  tl_get_time t w =
      if t.timer_valid then remaining (O.timer_gettime t.timer w) else (false, no_time, w)
