-- ===== src/TimerObject/Starts.antt =====
-- Starting the object ExcimerTimer arms its timer and keeps the invariant of the timers.
use mediawiki_php_excimer.Prelude.{
  ℕ, ◌≡◌, ◌≢◌, refl, sym, ap, ◌∙◌, ◌⊎◌, inl, inr, Bool, true, false, ◌||◌, not, List, arith,
  if◌then◌else◌, Bool-cases,
}
use mediawiki_php_excimer.Run.{Run, ok}
use mediawiki_php_excimer.Timerlib.{PosixApi}
use mediawiki_php_excimer.Timerlib.Started.{Reliable, rounds}
use mediawiki_php_excimer.Timer.{Ptr, null}
use mediawiki_php_excimer.Timer.Ring.{mem}
use mediawiki_php_excimer.Timer.Life.{Thread, timer_init, timer_start}
use mediawiki_php_excimer.Timer.Arms.{Arms, Fails, timer_start-Arms}
use mediawiki_php_excimer.Timer.Lives.{Lives}
use mediawiki_php_excimer.Timer.Keeps.{timer_start-Lives, timer_stop-Lives}
use mediawiki_php_excimer.Timer.Reuse.{Spares, destroy_valid-Lives, init_again-Spares}
use mediawiki_php_excimer.TimerObject.{TimerObject, arm, arm_new, start, stop, method_start}

module _ ⦃O : PosixApi⦄ where
  -- The outcome of a start: the timer keeps its address, the invariant holds, and no other timer
  -- becomes valid or invalid. Either the timer could not be initialised again, and the object is
  -- unchanged, or it is valid, the object will not initialise it again, and it is armed.
  pub record Starts (o : TimerObject) (live : List Ptr) (outcome : Run (TimerObject × Thread O))
      : Type 0 where
    pub o' : TimerObject
    pub st' : Thread O
    pub returns : outcome ≡ ok (o', st')
    pub spares : Spares st' live o.timer
    pub ends :
        ((o' ≡ o) × Fails o.timer o.event_type st')
        ⊎ ((o' ≡ record o { need_reinit = false })
            × Arms o.timer o.period o.initial st'
            × ((st'.timers o.timer).is_valid ≡ true))

  arm-Spares :
      (o : TimerObject) (st : Thread O) (live : List Ptr)
      → (s : Spares st live o.timer) → mem o.timer s.live' ≡ true
      → (st' : Thread O) × (arm o st ≡ (o, st'))
        × Spares st' live o.timer
        × Arms o.timer o.period o.initial st'
        × ((st'.timers o.timer).is_valid ≡ true)
  unfolding arm
  arm-Spares o st live s i =
      let lives = timer_start-Lives st s.live' o.timer o.period o.initial s.lives in
      (
        timer_start o.timer o.period o.initial st,
        refl,
        record { live' = s.live'; lives = lives; others = s.others },
        timer_start-Arms st s.live' o.timer o.period o.initial s.lives i,
        lives.valid o.timer ∙ i,
      )

  arm-Starts :
      (o : TimerObject) (st : Thread O) (live : List Ptr)
      → o.need_reinit ≡ false
      → (s : Spares st live o.timer) → mem o.timer s.live' ≡ true
      → Starts o live (ok (arm o st))
  arm-Starts o st live ready s i =
      let (st', done, spares, arms, valid) = arm-Spares o st live s i in
      record {
        o' = o;
        st' = st';
        returns = ap ok done;
        spares = spares;
        ends = inr (ap (λ b. record o { need_reinit = b }) ready, arms, valid);
      }

  arm_new-Starts :
      (o : TimerObject) (b : Bool) (st : Thread O) (live : List Ptr)
      → (s : Spares st live o.timer) → mem o.timer s.live' ≡ b
      → (fuel : ℕ) (before : Thread O) → timer_init fuel o.timer o.event_type before ≡ ok (b, st)
      → Starts o live (ok (arm_new o (b, st)))
  unfolding arm_new arm
  arm_new-Starts o false st live s i fuel before e = record {
    o' = o;
    st' = st;
    returns = refl;
    spares = s;
    ends = inl (
      refl,
      record {
        fuel = fuel;
        before = before;
        failure = e;
        invalid = let lives = s.lives in lives.valid o.timer ∙ i;
      },
    );
  }
  arm_new-Starts o true st live s i fuel before e =
      let (st', done, spares, arms, valid) =
        arm-Spares (record o { need_reinit = false }) st live s i in
      record {
        o' = record o { need_reinit = false };
        st' = st';
        returns = ap ok done;
        spares = spares;
        ends = inr (refl, arms, valid);
      }

  ready-valid : (b c : Bool) → (b || not c) ≡ false → (b ≡ false) × (c ≡ true)
  ready-valid false true h = (refl, refl)
  ready-valid false false h = absurd (cc)
  ready-valid true c h = absurd (cc)

  pub start-Starts :
      (o : TimerObject) (st : Thread O) (live : List Ptr)
      → Reliable
      → o.timer ≢ null
      → Lives st live
      → (fuel : ℕ) × Starts o live (start fuel o st)
  unfolding start
  start-Starts o st live reliable hp v =
      elim (Bool-cases (o.need_reinit || not ((st.timers o.timer).is_valid))) [
        | inl again ↦
            let (st1, released, v1) = destroy_valid-Lives st live o.timer hp v in
            let fuel = rounds st1.world in
            let (b, st2, done, s, i) =
              init_again-Spares st st1 live o.timer o.event_type fuel reliable hp v v1
                (omega arith) in
            (fuel, rw (again, released, done) (arm_new-Starts o b st2 live s i fuel st1 done))
        | inr ready ↦
            let (fixed, valid) = ready-valid o.need_reinit _ ready in
            let same : Spares st live o.timer = record {
              live' = live;
              lives = v;
              others = λ q h. refl;
            } in
            (0, rw ready (arm-Starts o st live fixed same (sym (v.valid o.timer) ∙ valid)))
      ]

  stopped-Lives :
      (o : TimerObject) (st : Thread O) (live : List Ptr)
      → Lives st live
      → Lives (if (st.timers o.timer).is_running then stop o st else st) live
  unfolding stop
  stopped-Lives o st live v = elim (Bool-cases ((st.timers o.timer).is_running)) [
    | inl running ↦ elim (Bool-cases ((st.timers o.timer).is_valid)) [
      | inl valid ↦ rw (running, valid) (timer_stop-Lives st live o.timer v)
      | inr invalid ↦ rw (running, invalid) v
    ]
    | inr idle ↦ rw idle v
  ]

  -- ExcimerTimer::start returns, given enough rounds to wait for the handler thread, if
  -- pthread_cond_wait reports no error; the invariant of the timers holds after it, and no other
  -- timer becomes valid or invalid. Either a timer that had to be initialised again could not be, and
  -- the object is unchanged, or the timer is valid, the object will not initialise it again, and the
  -- last call of the system was timer_settime for the timer, with the object's period and its initial
  -- delay or, if that is zero, the period; the timer runs if that succeeded. If both are zero there
  -- is a warning instead.
  pub method_start-Starts :
      (o : TimerObject) (st : Thread O) (live : List Ptr)
      → Reliable
      → o.timer ≢ null
      → Lives st live
      → (fuel : ℕ) × Starts o live (method_start fuel o st)
  unfolding method_start
  method_start-Starts o st live reliable hp v =
      start-Starts o (if (st.timers o.timer).is_running then stop o st else st) live reliable hp
        (stopped-Lives o st live v)
