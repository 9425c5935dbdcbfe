-- ===== src/Examples/KqueueExamples.antt =====
-- The theorems on timerlib_kqueue.c at a timer that expires after five seconds.
use mediawiki_php_excimer.Prelude.{
  ℕ, ◌+◌, ◌%◌, ◌^◌, ◌≡◌, refl, Bool, true, none, some, List, [], ◌∷◌, ◌++◌, arith,
}
use mediawiki_php_excimer.Timespec.{Timespec, timespec_is_zero, timespec_to_ns}
use mediawiki_php_excimer.Timerlib.{no_time}
use mediawiki_php_excimer.Timerlib.Kqueue.{
  KqueueApi, Kevent, interrupted, bad_descriptor, expired, KqueueTimer, returned, kqueue_handle,
  kqueue_get_time,
}
use mediawiki_php_excimer.Timerlib.Kqueue.Told.{
  heard, attended, kqueue_handle-told, oneshot_interrupted,
}
use mediawiki_php_excimer.Timerlib.Kqueue.Remaining.{kqueue_get_time-period}

abbrev five : Timespec
five = record { tv_sec = 5; tv_nsec = 0 }

abbrev seven : Timespec
seven = record { tv_sec = 7; tv_nsec = 500 }

-- Every call succeeds, at seven seconds.
instance abbrev steady : KqueueApi
steady = record {
  World = ℕ;
  kqueue = λ w. (some 4, w);
  kevent = λ kq oneshot ns w. (true, w);
  close = λ kq w. (true, w);
  pthread_create = λ w. (some 9, w);
  pthread_join = λ thread w. (true, w);
  pthread_mutex_destroy = λ w. (true, w);
  clock_gettime = λ w. (some seven, w + 1);
}

abbrev oneshot : KqueueTimer
oneshot = record {
  kq = some 4;
  period = no_time;
  initial = five;
  handler_thread_id = 9;
  last_fired_at = five;
  told = [];
}

abbrev periodic : KqueueTimer
periodic = record oneshot { period = five }

abbrev accept : ℕ → Bool
accept ns = true

abbrev events : List Kevent
events = expired 1 (some five) ∷ interrupted ∷ expired 3 none ∷ bad_descriptor ∷ []

kqueue_handle-told_example :
    (kqueue_handle accept events periodic).1.told
    ≡ periodic.told ++ heard (attended accept periodic events)
kqueue_handle-told_example = kqueue_handle-told accept events periodic

told_twice : (kqueue_handle accept events periodic).1.told ≡ 0 ∷ 2 ∷ []
unfolding heard timespec_is_zero
told_twice = kqueue_handle-told accept events periodic

oneshot_returns : kqueue_handle accept (interrupted ∷ events) oneshot ≡ (returned, oneshot)
oneshot_returns =
    oneshot_interrupted accept events oneshot (unfold timespec_is_zero in refl)
      (unfold timespec_is_zero in refl)

kqueue_get_time-period_example :
    (timespec_to_ns (kqueue_get_time no_time oneshot 0).0 + timespec_to_ns seven) % 2 ^ 64
    ≡ (timespec_to_ns no_time + timespec_to_ns five) % 2 ^ 64
kqueue_get_time-period_example =
    kqueue_get_time-period no_time seven oneshot 0 1 refl (omega arith) (omega arith) (omega arith)
      (omega arith)
