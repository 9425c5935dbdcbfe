-- ===== src/Timer/Change.antt =====
-- Changes of one timer that keep the invariant.
use mediawiki_php_excimer.Prelude.{
  ◌≡◌, ap, ◌∙◌, Bool, true, false, List, [], ◌∷◌, arith, ◌==◌, if◌then◌else◌,
}
use mediawiki_php_excimer.Timerlib.{PosixApi}
use mediawiki_php_excimer.Timer.{Ptr}
use mediawiki_php_excimer.Timer.Ring.{mem}
use mediawiki_php_excimer.Timer.Queue.{mem_apart}
use mediawiki_php_excimer.Timer.Life.{Timer, Thread, Warning, set_timer, started, stopped}
use mediawiki_php_excimer.Timer.Lives.{Lives}

pub mem_single : (a p : Ptr) → mem a (p ∷ []) ≡ (a == p)
unfolding mem
mem_single a p = ground arith

pub same_mem : (a p : Ptr) (live : List Ptr) → (a == p) ≡ true → mem a live ≡ mem p live
same_mem a p live h = let same : a ≡ p = ground arith in ap (λ (b : Ptr). mem b live) same

module _ ⦃O : PosixApi⦄ where
  -- A change of fields of a valid timer that keeps it valid, and of the world and the warnings.
  pub Lives-set_timer :
      (st : Thread O) (live : List Ptr) (p : Ptr) (t : Timer) (w : O.World) (ws : List Warning)
      → Lives st live
      → mem p live ≡ true
      → t.is_valid ≡ true
      → t.own ≡ true
      → t.tl_timer.timer_valid ≡ true
      → t.tl_timer.ready_locked ≡ false
      → Lives (set_timer p t (record st { world = w; warnings = ws })) live
  Lives-set_timer st live p t w ws v i valid own armed unlocked = record {
    distinct = v.distinct;
    nonnull = v.nonnull;
    valid = λ a. ground (arith, v.valid a, same_mem a p live);
    own = λ a h. ground (arith, v.own a);
    armed = λ a h. ground (arith, v.armed a);
    unlocked = λ a h. ground (arith, v.unlocked a);
    idle = λ a h. let apart = mem_apart p a live i h in ground (arith, v.idle a);
    active = v.active;
    queue = v.queue;
    queued = v.queued;
    only = v.only;
  }

  pub Lives-unchanged :
      (st : Thread O) (live : List Ptr) (w : O.World) (ws : List Warning)
      → Lives st live
      → Lives (record st { world = w; warnings = ws }) live
  Lives-unchanged st live w ws v = record {
    distinct = v.distinct;
    nonnull = v.nonnull;
    valid = v.valid;
    own = v.own;
    armed = v.armed;
    unlocked = v.unlocked;
    idle = v.idle;
    active = v.active;
    queue = v.queue;
    queued = v.queued;
    only = v.only;
  }

  pub started-Lives :
      (st : Thread O) (live : List Ptr) (p : Ptr) (r : Bool × O.World)
      → Lives st live
      → mem p live ≡ true
      → Lives (started p st r) live
  started-Lives st live p (false, w) v i = Lives-unchanged st live w st.warnings v
  started-Lives st live p (true, w) v i =
      Lives-set_timer st live p (record (st.timers p) { is_running = true }) w st.warnings v i
        (v.valid p ∙ i) (v.own p i) (v.armed p i) (v.unlocked p i)

  pub stopped-Lives :
      (st : Thread O) (live : List Ptr) (p : Ptr) (r : Bool × O.World)
      → Lives st live
      → mem p live ≡ true
      → Lives (stopped p st r) live
  stopped-Lives st live p (false, w) v i = Lives-unchanged st live w st.warnings v
  stopped-Lives st live p (true, w) v i =
      Lives-set_timer st live p (record (st.timers p) { is_running = false }) w st.warnings v i
        (v.valid p ∙ i) (v.own p i) (v.armed p i) (v.unlocked p i)

  pub Lives-if :
      (live : List Ptr) (b : Bool) (x y : Thread O)
      → Lives x live
      → Lives y live
      → Lives (if b then x else y) live
  Lives-if live true x y h k = h
  Lives-if live false x y h k = k
