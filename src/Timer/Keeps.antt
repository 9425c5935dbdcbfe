-- ===== src/Timer/Keeps.antt =====
-- The operations on timers keep the invariant.
use mediawiki_php_excimer.Prelude.{
  ℕ, ◌+◌, ◌%◌, ◌^◌, ◌≤◌, ◌≡◌, ◌≢◌, refl, inl, inr, Bool, true, false, List, [], ◌∷◌, ◌++◌, arith,
  if◌then◌else◌, Bool-cases,
}
use mediawiki_php_excimer.Run.{ok}
use mediawiki_php_excimer.Timespec.{Timespec, timespec_is_zero}
use mediawiki_php_excimer.Timerlib.{PosixApi, PosixTimer, tl_start, tl_stop}
use mediawiki_php_excimer.Timerlib.Started.{Reliable, rounds, tl_init-Ends, tl_destroy-ends}
use mediawiki_php_excimer.Timer.{Ptr, null, PendingList}
use mediawiki_php_excimer.Timer.Pending.{handle}
use mediawiki_php_excimer.Timer.Ring.{mem}
use mediawiki_php_excimer.Timer.Distinct.{erase, erase-absent, mem-append_list}
use mediawiki_php_excimer.Timer.Queue.{IsQueue, mem_apart}
use mediawiki_php_excimer.Timer.Notify.{handle-IsQueue}
use mediawiki_php_excimer.Timer.Fifo.{list_remove-IsQueue}
use mediawiki_php_excimer.Timer.Life.{
  Timer, Thread, uninitialised, zero_time, warn, set_timer, clear_pending, initialised, timer_init,
  started, timer_start, stopped, timer_stop, removed, timer_destroy, release,
}
use mediawiki_php_excimer.Timer.Lives.{
  Lives, clear_pending-IsQueue, mem-erase, Distinct-erase, length-erase,
}
use mediawiki_php_excimer.Timer.Change.{
  mem_single, same_mem, Lives-unchanged, started-Lives, stopped-Lives, Lives-if,
}

module _ ⦃O : PosixApi⦄ where
  -- Starting a timer keeps the invariant, whatever the system answers.
  pub timer_start-Lives :
      (st : Thread O) (live : List Ptr) (p : Ptr) (period initial : Timespec)
      → Lives st live
      → Lives (timer_start p period initial st) live
  unfolding timer_start
  timer_start-Lives st live p period initial v = elim (Bool-cases (mem p live)) [
    | inl i ↦
        simp (v.valid p, i)
          let first = if timespec_is_zero initial then period else initial in
            let r = tl_start (st.timers p).tl_timer period first st.world in
            Lives-if live (timespec_is_zero first) (warn zero_time st) (started p st r)
              (Lives-unchanged st live st.world (zero_time ∷ st.warnings) v)
              (started-Lives st live p r v i)
    | inr i ↦ simp (v.valid p, i) (Lives-unchanged st live st.world (uninitialised ∷ st.warnings) v)
  ]

  -- Stopping a timer keeps the invariant, whatever the system answers.
  pub timer_stop-Lives :
      (st : Thread O) (live : List Ptr) (p : Ptr) → Lives st live → Lives (timer_stop p st) live
  unfolding timer_stop
  timer_stop-Lives st live p v = elim (Bool-cases (mem p live)) [
    | inl i ↦
        simp (v.valid p, i)
          let r = tl_stop (st.timers p).tl_timer st.world in
            Lives-if live (st.timers p).is_running (stopped p st r) st
              (stopped-Lives st live p r v i) v
    | inr i ↦ simp (v.valid p, i) (Lives-unchanged st live st.world (uninitialised ∷ st.warnings) v)
  ]

  release-ends :
      (t : Timer) (w : O.World)
      → t.tl_timer.ready_locked ≡ false
      → (r : PosixTimer × O.World) × (release t w ≡ ok r)
  unfolding release
  release-ends t w free = tl_destroy-ends t.tl_timer _ free

  removed-Lives :
      (st : Thread O) (live : List Ptr) (p : Ptr) (r : PosixTimer × O.World) (m : PendingList)
      → (v : Lives st live) → mem p live ≡ true
      → IsQueue m (erase p v.queue)
      → Lives (removed p st r m) (erase p live)
  removed-Lives st live p r m v i is =
      let gone = λ (a : Ptr). mem-erase p a live v.distinct in
      record {
        distinct = Distinct-erase p live v.distinct;
        nonnull = let out = v.nonnull in ground (arith, gone null);
        valid = λ a. ground (arith, v.valid a, gone a);
        own = λ a h. ground (arith, v.own a, gone a);
        armed = λ a h. ground (arith, v.armed a, gone a);
        unlocked = λ a h. ground (arith, v.unlocked a, gone a);
        idle = λ a h. ground (arith, v.idle a, gone a);
        active = let n = length-erase p live i in let k = v.active in omega arith;
        queue = erase p v.queue;
        queued = is;
        only = λ a h. ground (arith, v.only a, gone a, mem-erase p a v.queue v.queued.distinct);
      }

  -- Destroying a timer succeeds, keeps the invariant of the others, and leaves no link to the timer:
  -- it is neither valid nor pending. A timer that is not valid is left alone.
  pub timer_destroy-Lives :
      (st : Thread O) (live : List Ptr) (p : Ptr)
      → p ≢ null
      → Lives st live
      → (st' : Thread O) × (timer_destroy p st ≡ ok st')
        × Lives st' (erase p live)
        × (st'.pending.next p ≡ null)
  unfolding timer_destroy
  timer_destroy-Lives st live p hp v = elim (Bool-cases (mem p live)) [
    | inl i ↦
        let (m, e, is, c) = list_remove-IsQueue st.pending v.queue p hp v.queued in
        let (r, released) = release-ends (st.timers p) st.world (v.unlocked p i) in
        let out : mem p (erase p v.queue) ≡ false =
          ground (arith, mem-erase p p v.queue v.queued.distinct) in
        (
          removed p st r m,
          simp (v.valid p, i, v.own p i, released, e),
          removed-Lives st live p r m v i is,
          is.free p out,
        )
    | inr i ↦
        let out : mem p v.queue ≡ false = ground (arith, v.only p) in
        (st, simp (v.valid p, i), rw (erase-absent p live i) v, v.queued.free p out)
  ]

  initialised-Lives :
      (st : Thread O) (live : List Ptr) (p : Ptr) (r : Bool × PosixTimer × O.World)
      → p ≢ null
      → mem p live ≡ false
      → (r.0 ≡ true → r.1.timer_valid ≡ true)
      → r.1.ready_locked ≡ false
      → Lives st live
      → (st' : Thread O) × (initialised p (record st { pending = clear_pending p st.pending }) r
          ≡ ok (r.0, st'))
        × Lives st' (if r.0 then p ∷ live else live)
  unfolding initialised mem
  initialised-Lives st live p (false, t, w) hp out created free v =
      let absent : mem p v.queue ≡ false = ground (arith, v.only p) in
      let (r, destroyed) = tl_destroy-ends t w free in
      (
        set_timer p (record { is_valid = false; is_running = false; tl_timer = r.0; own = true })
            (record st { pending = clear_pending p st.pending; world = r.1 }),
        rw destroyed refl,
        record {
          distinct = v.distinct;
          nonnull = v.nonnull;
          valid = λ a. ground (arith, v.valid a, same_mem a p live);
          own = λ a h. ground (arith, v.own a, same_mem a p live);
          armed = λ a h. ground (arith, v.armed a, same_mem a p live);
          unlocked = λ a h. ground (arith, v.unlocked a, same_mem a p live);
          idle = λ a h. ground (arith, v.idle a);
          active = v.active;
          queue = v.queue;
          queued = clear_pending-IsQueue st.pending p v.queue v.queued absent;
          only = v.only;
        },
      )
  initialised-Lives st live p (true, t, w) hp out created free v =
      let absent : mem p v.queue ≡ false = ground (arith, v.only p) in
      let made = created refl in
      (
        set_timer p (record { is_valid = true; is_running = false; tl_timer = t; own = true })
            (record st {
              pending = clear_pending p st.pending;
              world = w;
              timers_active = (st.timers_active + 1) % 2 ^ 64;
            }),
        refl,
        record {
          distinct = (out, v.distinct);
          nonnull = let kept = v.nonnull in ground arith;
          valid = λ a. ground (arith, v.valid a);
          own = λ a h. ground (arith, v.own a);
          armed = λ a h. ground (arith, v.armed a);
          unlocked = λ a h. ground (arith, v.unlocked a);
          idle = λ a h. ground (arith, v.idle a);
          active = let k = v.active in omega arith;
          queue = v.queue;
          queued = clear_pending-IsQueue st.pending p v.queue v.queued absent;
          only = λ a h. ground (arith, v.only a);
        },
      )

  -- Initialising a timer that is not valid returns, given enough rounds to wait for the handler
  -- thread, and keeps the invariant: with the timer among the valid ones if it reports success, and
  -- without it if not. The condition is that pthread_cond_wait reports no error; every other call of
  -- the system may fail.
  pub timer_init-Lives :
      (fuel : ℕ) (st : Thread O) (live : List Ptr) (p : Ptr) (event_type : ℕ)
      → Reliable
      → p ≢ null
      → mem p live ≡ false
      → rounds st.world ≤ fuel
      → Lives st live
      → (b : Bool) × (st' : Thread O) × (timer_init fuel p event_type st ≡ ok (b, st'))
        × Lives st' (if b then p ∷ live else live)
  unfolding timer_init
  timer_init-Lives fuel st live p event_type reliable hp out enough v =
      let e = tl_init-Ends reliable fuel event_type st.world enough in
      let (st', done, v') = initialised-Lives st live p e.result hp out e.created e.unlocked v in
      (e.result.0, st', rw (e.ends) done, v')

  -- The report of an expiry of a valid timer keeps the invariant: only valid timers are pending.
  pub handle-Lives :
      (st : Thread O) (live : List Ptr) (p : Ptr) (o : ℕ)
      → mem p live ≡ true
      → Lives st live
      → (m : PendingList) × (handle p o st.pending ≡ ok m) × Lives (record st { pending = m }) live
  handle-Lives st live p o i v =
      let hp = mem_apart p null live i v.nonnull in
      let (m, e, is) = handle-IsQueue st.pending v.queue p o hp v.queued in
      (
        m,
        e,
        record {
          distinct = v.distinct;
          nonnull = v.nonnull;
          valid = v.valid;
          own = v.own;
          armed = v.armed;
          unlocked = v.unlocked;
          idle = v.idle;
          active = v.active;
          queue = if mem p v.queue then v.queue else v.queue ++ p ∷ [];
          queued = is;
          only = λ a h. ground (
            arith,
            v.only a,
            same_mem a p live,
            mem-append_list a v.queue (p ∷ []),
            mem_single a p,
          );
        },
      )
