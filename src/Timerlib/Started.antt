-- ===== src/Timerlib/Started.antt =====
-- timerlib_timer_init and timerlib_timer_destroy end.
use mediawiki_php_excimer.Prelude.{
  ℕ, zero, suc, ◌+◌, ◌≤◌, ◌<◌, ◌≡◌, ◌≢◌, refl, ap, inl, inr, Bool, true, false, Option, none, some,
  arith, Bool-cases,
}
use mediawiki_php_excimer.Run.{Run, ok}
use mediawiki_php_excimer.Timerlib.{
  PosixApi, PosixTimer, Wait, wait_error, spurious, notified, blank, await_ready, awoken, report,
  created, create_timer, threaded, tl_init, join_killed, end_thread, delete_timer, tl_destroy,
}

module _ ⦃O : PosixApi⦄ where
  -- A run that returns, with a timer of the system if it reports success.
  pub record Ends (r : Run (Bool × PosixTimer × O.World)) : Type 0 where
    pub result : Bool × PosixTimer × O.World
    pub ends : r ≡ ok result
    pub created : result.0 ≡ true → result.1.timer_valid ≡ true
    pub unlocked : result.1.ready_locked ≡ false

  pub record Waits (r : Run (Bool × PosixTimer × O.World)) : Type 0 where
    pub result : Bool × PosixTimer × O.World
    pub ends : r ≡ ok result
    pub unlocked : result.1.ready_locked ≡ false

  -- The system lets a thread wait.
  abbrev pub Reliable : Type 0
  Reliable = (w : O.World) → (O.pthread_cond_wait w).0 ≢ wait_error

  await_ready-ready :
      (fuel : ℕ) (t : PosixTimer) (w : O.World)
      → t.ready ≡ true
      → Waits (await_ready (suc fuel) t w)
  unfolding await_ready
  await_ready-ready fuel t w h = record {
    result = (true, record t { ready_locked = false }, w);
    ends = rw h;
    unlocked = refl;
  }

  woken-Waits :
      (reliable : Reliable) (fuel : ℕ) (t : PosixTimer) (w : O.World) (r : Wait × O.World)
      → O.pthread_cond_wait w ≡ r
      → O.spurious_left w + 2 ≤ suc fuel
      → ((w' : O.World) → O.spurious_left w' + 2 ≤ fuel → Waits (await_ready fuel t w'))
      → Waits (awoken (await_ready fuel) t r)
  woken-Waits reliable fuel t w (wait_error, w') e h again = absurd (reliable w (ap (λ x. x.0) e))
  woken-Waits reliable fuel t w (spurious, w') e h again =
      let fewer : O.spurious_left w' < O.spurious_left w =
        rw e at (O.spurious-lt w (ap (λ x. x.0) e)) in
      again w' (omega arith)
  woken-Waits reliable zero t w (notified tid, w') e h again = absurd (omega arith)
  woken-Waits reliable (suc fuel) t w (notified tid, w') e h again =
      await_ready-ready fuel (record t { tid = tid; ready = true }) w' refl

  await_ready-Waits :
      (reliable : Reliable) (fuel : ℕ) (t : PosixTimer) (w : O.World)
      → O.spurious_left w + 2 ≤ fuel
      → Waits (await_ready fuel t w)
  unfolding await_ready
  await_ready-Waits reliable zero t w h = absurd (omega arith)
  await_ready-Waits reliable (suc fuel) t w h = elim (Bool-cases t.ready) [
    | inl ready ↦ await_ready-ready fuel t w ready
    | inr waiting ↦ simp (waiting) (
        woken-Waits reliable fuel t w (O.pthread_cond_wait w) refl h
          (await_ready-Waits reliable fuel t))
  ]

  created-Ends :
      (t : PosixTimer) (r : Option ℕ × O.World) → t.ready_locked ≡ false → Ends (created t r)
  created-Ends t (none, w) free = record {
    result = (false, t, w);
    ends = refl;
    created = λ h. absurd (cc);
    unlocked = free;
  }
  created-Ends t (some timer, w) free = record {
    result = (true, record t { timer = timer; timer_valid = true }, w);
    ends = refl;
    created = λ h. refl;
    unlocked = free;
  }

  create_timer-Ends :
      (r : Bool × PosixTimer × O.World) → r.1.ready_locked ≡ false → Ends (create_timer r)
  unfolding create_timer
  create_timer-Ends (false, t, w) free = record {
    result = (false, t, w);
    ends = refl;
    created = λ h. absurd (cc);
    unlocked = free;
  }
  create_timer-Ends (true, t, w) free = created-Ends t (O.timer_create t.clock t.tid w) free

  threaded-Ends :
      (reliable : Reliable) (fuel : ℕ) (t : PosixTimer) (r : Option (ℕ × Option ℕ) × O.World)
      → O.spurious_left r.1 + 2 ≤ fuel
      → t.ready_locked ≡ false
      → Ends (threaded fuel t r)
  threaded-Ends reliable fuel t (none, w) h free = record {
    result = (false, t, w);
    ends = refl;
    created = λ e. absurd (cc);
    unlocked = free;
  }
  threaded-Ends reliable fuel t (some (thread, tid), w) h free =
      let waits =
        await_ready-Waits reliable fuel
          (record (report (record t { thread = thread; thread_valid = true }) tid) {
            ready_locked = true;
          })
          w h in
      let last = create_timer-Ends waits.result waits.unlocked in
      record {
        result = last.result;
        ends = rw (waits.ends) last.ends;
        created = last.created;
        unlocked = last.unlocked;
      }

  -- Enough rounds for the spurious wake-ups after the thread was created.
  abbrev pub rounds : O.World → ℕ
  rounds w = O.spurious_left (O.pthread_create w).1 + 2

  pub tl_init-Ends :
      (reliable : Reliable) (fuel clock : ℕ) (w : O.World)
      → rounds w ≤ fuel
      → Ends (tl_init fuel clock w)
  unfolding tl_init
  tl_init-Ends reliable fuel clock w h =
      threaded-Ends reliable fuel (blank clock) (O.pthread_create w) h refl

  join_killed-ends :
      (t : PosixTimer) (r : Bool × O.World)
      → t.ready_locked ≡ false
      → (s : PosixTimer × O.World) × (join_killed t r ≡ ok s)
  join_killed-ends t (false, w) free = ((t, w), refl)
  join_killed-ends t (true, w) free = ((t, (O.pthread_join t.thread w).1), rw free)

  -- With its mutex free a timer is destroyed: the handler thread can exit.
  pub tl_destroy-ends :
      (t : PosixTimer) (w : O.World)
      → t.ready_locked ≡ false
      → (r : PosixTimer × O.World) × (tl_destroy t w ≡ ok r)
  unfolding tl_destroy end_thread
  tl_destroy-ends t w free = elim (Bool-cases t.thread_valid) [
    | inl there ↦
        let r =
          join_killed-ends (record t { thread_valid = false; killed = true })
            (O.pthread_kill t.thread w) free in
        (delete_timer r.0, rw (there, r.1))
    | inr gone ↦ (delete_timer (t, w), rw gone)
  ]
