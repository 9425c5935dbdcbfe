-- ===== src/Timer/Arms.antt =====
-- What excimer_timer_start of excimer_timer.c asks of the system.
use mediawiki_php_excimer.Prelude.{
  ℕ, ◌≡◌, refl, ◌∙◌, inl, inr, Bool, true, false, List, ◌∷◌, arith, Bool-cases, if◌then◌else◌,
}
use mediawiki_php_excimer.Run.{ok}
use mediawiki_php_excimer.Timespec.{Timespec, timespec_is_zero}
use mediawiki_php_excimer.Timerlib.{PosixApi, tl_start}
use mediawiki_php_excimer.Timer.{Ptr}
use mediawiki_php_excimer.Timer.Ring.{mem}
use mediawiki_php_excimer.Timer.Life.{Warning, zero_time, Thread, timer_init, started, timer_start}
use mediawiki_php_excimer.Timer.Lives.{Lives}

-- The delay of the first event: the initial one, or the period if there is none.
abbrev pub first_delay : Timespec → Timespec → Timespec
first_delay period initial = if timespec_is_zero initial then period else initial

module _ ⦃O : PosixApi⦄ where
  -- A start of the timer `p` that has come to its end: without a delay it only warns; otherwise the
  -- last call of the system is timer_settime for this timer, with the period and the delay, and the
  -- timer runs if that succeeds.
  pub data Arms (p : Ptr) (period initial : Timespec) (st' : Thread O) : Type 0 where
    without_time :
        (before : List Warning)
        → timespec_is_zero (first_delay period initial) ≡ true
        → st'.warnings ≡ zero_time ∷ before
        → Arms p period initial st'
    answered :
        (w : O.World) (success : Bool)
        → timespec_is_zero (first_delay period initial) ≡ false
        → O.timer_settime (st'.timers p).tl_timer.timer period (first_delay period initial) w
          ≡ (success, st'.world)
        → (success ≡ true → (st'.timers p).is_running ≡ true)
        → (st'.timers p).is_valid ≡ true
        → Arms p period initial st'

  -- The initialisation of the timer `p` has failed, and it is not valid.
  pub record Fails (p : Ptr) (event_type : ℕ) (st' : Thread O) : Type 0 where
    pub fuel : ℕ
    pub before : Thread O
    pub failure : timer_init fuel p event_type before ≡ ok (false, st')
    pub invalid : (st'.timers p).is_valid ≡ false

  started-Arms :
      (st : Thread O) (p : Ptr) (period initial : Timespec) (r : Bool × O.World)
      → timespec_is_zero (first_delay period initial) ≡ false
      → O.timer_settime (st.timers p).tl_timer.timer period (first_delay period initial) st.world
        ≡ r
      → (st.timers p).is_valid ≡ true
      → Arms p period initial (started p st r)
  started-Arms st p period initial (false, w) some_time e valid =
      answered st.world false some_time e (λ h. absurd (cc)) valid
  started-Arms st p period initial (true, w) some_time e valid =
      answered st.world true some_time (ground (arith, e)) (λ h. ground arith)
        (ground (arith, valid))

  pub timer_start-Arms :
      (st : Thread O) (live : List Ptr) (p : Ptr) (period initial : Timespec)
      → Lives st live
      → mem p live ≡ true
      → Arms p period initial (timer_start p period initial st)
  unfolding timer_start tl_start
  timer_start-Arms st live p period initial v i =
      elim (Bool-cases (timespec_is_zero (first_delay period initial))) [
        | inl no_time ↦ rw (v.valid p, i, no_time) (without_time st.warnings no_time refl)
        | inr some_time ↦
            rw (v.valid p, i, some_time, v.armed p i)
              (started-Arms st p period initial _ some_time refl (v.valid p ∙ i))
      ]
