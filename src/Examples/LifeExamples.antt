-- ===== src/Examples/LifeExamples.antt =====
-- The theorems on the life cycle of timers at a thread with one timer, 5, on a system that answers
-- every call with success.
use mediawiki_php_excimer.Prelude.{
  ℕ, ◌+◌, ◌≡◌, ◌≢◌, refl, Bool, true, false, none, some, [], ◌∷◌, arith, ◌==◌, if◌then◌else◌,
}
use mediawiki_php_excimer.Run.{ok}
use mediawiki_php_excimer.Timespec.{Timespec}
use mediawiki_php_excimer.Timerlib.{PosixApi, wait_error, spurious, notified, blank, no_time}
use mediawiki_php_excimer.Timer.{null}
use mediawiki_php_excimer.Timer.Ring.{mem}
use mediawiki_php_excimer.Timer.Distinct.{erase}
use mediawiki_php_excimer.Timer.Interleaving.{fresh}
use mediawiki_php_excimer.Timer.Life.{Timer, Thread, timer_init, timer_destroy}
use mediawiki_php_excimer.Timer.Lives.{Lives}
use mediawiki_php_excimer.Timer.Keeps.{timer_init-Lives, timer_destroy-Lives}

pub notified-ne_spurious : notified 8 ≢ spurious
notified-ne_spurious h = cc

instance abbrev pub calm : PosixApi
calm = record {
  World = ℕ;
  pthread_create = λ w. (some (7, none), w);
  pthread_cond_wait = λ w. (notified 8, w);
  spurious_left = λ w. 0;
  spurious-lt = λ w h. absurd (notified-ne_spurious h);
  timer_create = λ clock tid w. (some 3, w);
  timer_settime = λ timer period initial w. (true, w + 1);
  timer_gettime = λ timer w. (some no_time, w);
  timer_delete = λ timer w. (true, w);
  pthread_kill = λ thread w. (true, w);
  pthread_join = λ thread w. (true, w);
}

pub calm_reliable : (w : ℕ) → notified 8 ≢ wait_error
calm_reliable w h = cc

abbrev pub unused : Timer
unused = record { is_valid = false; is_running = false; tl_timer = blank 0; own = false }

abbrev pub valid_timer : Timer
valid_timer = record {
  is_valid = true;
  is_running = true;
  tl_timer = record (blank 0) { timer = 3; timer_valid = true; thread = 7; thread_valid = true };
  own = true;
}

abbrev pub one_timer : Thread calm
one_timer = record {
  pending = fresh;
  timers = λ p. if p == 5 then valid_timer else unused;
  timers_active = 1;
  warnings = [];
  world = 0;
}

pub one_timer-Lives : Lives one_timer (5 ∷ [])
unfolding mem
one_timer-Lives = record {
  distinct = (refl, tt);
  nonnull = refl;
  valid = λ p. ground arith;
  own = λ p h. ground arith;
  armed = λ p h. ground arith;
  unlocked = λ p h. ground arith;
  idle = λ p h. ground arith;
  active = refl;
  queue = [];
  queued = record { ring = refl; distinct = tt; nonnull = refl; free = λ p out. refl };
  only = λ p h. absurd (cc h);
}

abbrev pub second : Timespec
second = record { tv_sec = 1; tv_nsec = 0 }

timer_init-Lives_example :
    (b : Bool) × (st' : Thread calm) × (timer_init 2 6 0 one_timer ≡ ok (b, st'))
    × Lives st' (if b then 6 ∷ 5 ∷ [] else 5 ∷ [])
timer_init-Lives_example =
    timer_init-Lives 2 one_timer (5 ∷ []) 6 0 calm_reliable (omega arith) (unfold mem in refl)
      (omega arith) one_timer-Lives

timer_destroy-Lives_example :
    (st' : Thread calm) × (timer_destroy 5 one_timer ≡ ok st')
    × Lives st' (erase 5 (5 ∷ []))
    × (st'.pending.next 5 ≡ null)
timer_destroy-Lives_example = timer_destroy-Lives one_timer (5 ∷ []) 5 (omega arith) one_timer-Lives
