-- ===== src/Timerlib/Kqueue.antt =====
-- timerlib/timerlib_kqueue.c and timerlib/timerlib_kqueue.h: a timer of a kqueue, whose expiries a
-- handler thread reports. The system calls are an interface.
pub mod Told
pub mod Remaining
use mediawiki_php_excimer.Prelude.{
  ℕ, ◌+◌, ◌-◌, ◌%◌, ◌^◌, Bool, true, false, not, Option, none, some, List, [], ◌∷◌, ◌++◌,
  if◌then◌else◌,
}
use mediawiki_php_excimer.Timespec.{
  Timespec, timespec_is_zero, timespec_to_ns, timespec_add, timespec_subtract,
}
use mediawiki_php_excimer.Timerlib.{no_time}

pub record KqueueApi : Type 1 where
  pub World : Type 0
  -- the descriptor, or an error
  pub kqueue : World → Option ℕ × World
  -- kevent with a change: the queue, EV_ONESHOT, the nanoseconds; `true` is success
  pub kevent : ℕ → Bool → ℕ → World → Bool × World
  pub close : ℕ → World → Bool × World
  pub pthread_create : World → Option ℕ × World
  pub pthread_join : ℕ → World → Bool × World
  pub pthread_mutex_destroy : World → Bool × World
  -- CLOCK_MONOTONIC; an error leaves the time as it is
  pub clock_gettime : World → Option Timespec × World

-- What kevent returns to a thread that waits: -1 with EINTR, with EBADF or with another error, no
-- event, or an event with the number of expiries and the time of the clock.
pub data Kevent : Type 0 where
  interrupted bad_descriptor failed no_event : Kevent
  expired : (expiries : ℕ) (now : Option Timespec) → Kevent

-- A `kq` of -1 is `none`; `told` are the overrun counts, 32-bit patterns, that the notify function
-- was called with, the first first.
pub record KqueueTimer : Type 0 where
  pub kq : Option ℕ
  pub period : Timespec
  pub initial : Timespec
  pub handler_thread_id : ℕ
  pub last_fired_at : Timespec
  pub told : List ℕ

-- TIMERLIB_SUCCESS, TIMERLIB_FAILURE, and timerlib_abort.
pub data Verdict : Type 0 where
  goes_on leaves aborts : Verdict

abbrev pub time_or : Timespec → Option Timespec → Timespec
time_or t none = t
time_or t (some now) = now

-- timerlib_handle_timer_event.
unfoldable pub handle_timer_event : Kevent → KqueueTimer → Verdict × KqueueTimer
handle_timer_event interrupted t = (goes_on, t)
handle_timer_event bad_descriptor t = (leaves, t)
handle_timer_event failed t = (aborts, t)
handle_timer_event no_event t = (goes_on, t)
handle_timer_event (expired expiries now) t = (
  goes_on,
  record t {
    last_fired_at = time_or t.last_fired_at now;
    told = t.told ++ ((expiries + (2 ^ 32 - 1)) % 2 ^ 32) ∷ [];
  },
)

-- The handler thread waits for a further event, has returned, or has ended the process.
pub data End : Type 0 where
  waits returned aborted : End

abbrev pub goes : (KqueueTimer → End × KqueueTimer) → Verdict × KqueueTimer → End × KqueueTimer
goes next (goes_on, t) = next t
goes next (leaves, t) = (returned, t)
goes next (aborts, t) = (aborted, t)

-- The loop, on the events as they come.
unfoldable pub handle_events : List Kevent → KqueueTimer → End × KqueueTimer
handle_events [] t = (waits, t)
handle_events (e ∷ es) t = goes (handle_events es) (handle_timer_event e t)

-- After the initial expiry the timer is configured again, with its period; `change` is the answer.
unfoldable pub reconfigured : (ℕ → Bool) → List Kevent → KqueueTimer → End × KqueueTimer
reconfigured change es t =
    if timespec_is_zero t.period
    then (returned, t)
    else if change (timespec_to_ns t.period)
    then handle_events es t
    else (returned, t)

unfoldable pub await_initial : (ℕ → Bool) → List Kevent → KqueueTimer → End × KqueueTimer
await_initial change [] t = (waits, t)
await_initial change (e ∷ es) t = goes (reconfigured change es) (handle_timer_event e t)

-- timerlib_kqueue_handle.
unfoldable pub kqueue_handle : (ℕ → Bool) → List Kevent → KqueueTimer → End × KqueueTimer
kqueue_handle change es t =
    if timespec_is_zero t.initial then handle_events es t else await_initial change es t

-- timerlib_timer_init.
unfoldable pub kqueue_init : KqueueTimer
kqueue_init = record {
  kq = none;
  period = no_time;
  initial = no_time;
  handler_thread_id = 0;
  last_fired_at = no_time;
  told = [];
}

module _ ⦃K : KqueueApi⦄ where
  -- timerlib_setup_kqueue_timer.
  unfoldable pub setup_kqueue_timer : ℕ → Bool → Timespec → K.World → Bool × K.World
  setup_kqueue_timer kq oneshot period w = K.kevent kq oneshot (timespec_to_ns period) w

  abbrev pub threaded : KqueueTimer → Option ℕ × K.World → Bool × KqueueTimer × K.World
  threaded t (none, w) = (false, t, w)
  threaded t (some thread, w) = (true, record t { handler_thread_id = thread }, w)

  abbrev pub armed : KqueueTimer → Bool × K.World → Bool × KqueueTimer × K.World
  armed t (false, w) = (false, t, w)
  armed t (true, w) = threaded t (K.pthread_create w)

  abbrev pub opened : KqueueTimer → Option ℕ × K.World → Bool × KqueueTimer × K.World
  opened t (none, w) = (false, t, w)
  opened t (some kq, w) =
      let (now, w') = K.clock_gettime w in
      let t' = record t { kq = some kq; last_fired_at = time_or t.last_fired_at now } in
      armed t' (
        setup_kqueue_timer kq (not (timespec_is_zero t.initial))
          (if timespec_is_zero t.initial then t.period else t.initial) w')

  -- timerlib_timer_start.
  unfoldable pub kqueue_start :
      KqueueTimer → Timespec → Timespec → K.World → Bool × KqueueTimer × K.World
  kqueue_start t period initial w =
      opened (record t { period = period; initial = initial }) (K.kqueue w)

  abbrev pub closed : KqueueTimer → Bool × K.World → Bool × KqueueTimer × K.World
  closed t (false, w) = (false, t, w)
  closed t (true, w) = let (joined, w') = K.pthread_join t.handler_thread_id w in (joined, t, w')

  abbrev pub stop_queue : Option ℕ → KqueueTimer → K.World → Bool × KqueueTimer × K.World
  stop_queue none t w = (true, t, w)
  stop_queue (some kq) t w = closed (record t { period = no_time }) (K.close kq w)

  -- timerlib_timer_stop, which leaves `kq` as it is.
  unfoldable pub kqueue_stop : KqueueTimer → K.World → Bool × KqueueTimer × K.World
  kqueue_stop t w = stop_queue t.kq t w

  -- timerlib_timer_destroy.
  unfoldable pub kqueue_destroy : KqueueTimer → K.World → K.World
  kqueue_destroy t w = (K.pthread_mutex_destroy w).1

  -- timerlib_timer_get_time; `now` is uninitialised memory if the clock fails.
  unfoldable pub kqueue_get_time : Timespec → KqueueTimer → K.World → Timespec × K.World
  kqueue_get_time memory t w =
      let (now, w') = K.clock_gettime w in
      (timespec_subtract (timespec_add t.period t.last_fired_at) (time_or memory now), w')
