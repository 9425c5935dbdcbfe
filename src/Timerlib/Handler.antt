-- ===== src/Timerlib/Handler.antt =====
-- The handler thread of timerlib/timerlib_posix.c, timerlib_timer_thread_main, beside the thread that
-- stops it by timerlib_graceful_exit. The signals of the kernel are an interface.
pub mod Account
pub mod Exit
use mediawiki_php_excimer.Prelude.{
  ℕ, suc, ◌+◌, refl, ◌≡◌, ◌≢◌, Bool, true, false, Option, none, some, List, [], ◌∷◌, if◌then◌else◌,
  ltb,
}

-- `si_code`: SI_TIMER, with `si_overrun`, or another sender.
pub data Cause : Type 0 where
  timer : (si_overrun : ℕ) → Cause
  sender : Cause

-- How many expiries a signal stands for.
abbrev pub expiries_of : Cause → ℕ
expiries_of (timer si_overrun) = si_overrun + 1
expiries_of sender = 0

-- The signals that wait for the thread. One that waits already may absorb another; expiries that no
-- other sender disturbs are counted by the overrun count, up to DELAYTIMER_MAX, where it stays.
pub record SignalApi : Type 1 where
  pub Queue : Type 0
  pub no_signal : Queue
  -- an expiry of the timer, and pthread_kill
  pub expire : Queue → Queue
  pub kill : Queue → Queue
  -- sigwaitinfo, which waits at `none`
  pub take : Queue → Option (Cause × Queue)
  pub expiries : Queue → ℕ
  -- a sender has been there
  pub disturbed : Queue → Bool
  pub delaytimer_max : ℕ
  pub expiries-no_signal : expiries no_signal ≡ 0
  pub disturbed-no_signal : disturbed no_signal ≡ false
  pub expiries-expire :
      (q : Queue)
      → disturbed q ≡ false
      → expiries (expire q)
        ≡ (if ltb delaytimer_max (expiries q) then expiries q else expiries q + 1)
  pub disturbed-expire : (q : Queue) → disturbed (expire q) ≡ disturbed q
  pub take-expire : (q : Queue) → take (expire q) ≢ none
  pub take-kill : (q : Queue) → take (kill q) ≢ none
  pub expiries-take :
      (q : Queue) (c : Cause) (q' : Queue)
      → take q ≡ some (c, q')
      → expiries q ≡ expiries_of c + expiries q'
  pub disturbed-take :
      (q : Queue) (c : Cause) (q' : Queue)
      → take q ≡ some (c, q')
      → disturbed q ≡ false
      → disturbed q' ≡ false

pub data Phase : Type 0 where
  starting waiting exited : Phase

-- `told` are the overrun counts that the notify function was called with, the last first. `sent` says
-- that pthread_kill was called. `expired` counts the expiries, `lost` those that found an overrun count
-- at its maximum.
pub record System (K : SignalApi) : Type 0 where
  pub phase : Phase
  pub ready : Bool
  pub killed : Bool
  pub sent : Bool
  pub queue : K.Queue
  pub told : List ℕ
  pub expired : ℕ
  pub lost : ℕ

if_true : {A : Type 0} (b : Bool) (x y : A) → b ≡ true → (if b then x else y) ≡ x
if_true b x y h = rw h

if_false : {A : Type 0} (b : Bool) (x y : A) → b ≡ false → (if b then x else y) ≡ y
if_false b x y h = rw h

module _ ⦃K : SignalApi⦄ where
  abbrev pub created_system : System K
  created_system = record {
    phase = starting;
    ready = false;
    killed = false;
    sent = false;
    queue = K.no_signal;
    told = [];
    expired = 0;
    lost = 0;
  }

  -- timerlib_notify_ready, after which the thread waits for signals.
  unfoldable pub notify_ready : System K → System K
  notify_ready s = record s { ready = true; phase = waiting }

  unfoldable pub notify : Cause → System K → System K
  notify (timer si_overrun) s = record s { told = si_overrun ∷ s.told }
  notify sender s = s

  -- The body of the loop, when sigwaitinfo has returned a signal.
  unfoldable pub on_signal : Cause → System K → System K
  on_signal c s = if s.killed then record s { phase = exited } else notify c s

  pub on_signal-killed :
      (c : Cause) (s : System K) → s.killed ≡ true → on_signal c s ≡ record s { phase = exited }
  unfolding on_signal
  on_signal-killed c s h = if_true s.killed (record s { phase = exited }) (notify c s) h

  pub on_signal-alive : (c : Cause) (s : System K) → s.killed ≡ false → on_signal c s ≡ notify c s
  unfolding on_signal
  on_signal-alive c s h = if_false s.killed (record s { phase = exited }) (notify c s) h

  -- The two halves of timerlib_graceful_exit.
  unfoldable pub mark_killed : System K → System K
  mark_killed s = record s { killed = true }

  unfoldable pub send_signal : System K → System K
  send_signal s = record s { queue = K.kill s.queue; sent = true }

  unfoldable pub expire_timer : System K → System K
  expire_timer s = record s {
    queue = K.expire s.queue;
    expired = s.expired + 1;
    lost = if ltb K.delaytimer_max (K.expiries s.queue) then s.lost + 1 else s.lost;
  }

  -- A step of the handler thread.
  pub data Handles (s : System K) : System K → Type 0 where
    begins : s.phase ≡ starting → Handles s (notify_ready s)
    receives :
        (c : Cause) (q : K.Queue)
        → s.phase ≡ waiting
        → K.take s.queue ≡ some (c, q)
        → Handles s (on_signal c (record s { queue = q }))

  -- A step of the others; sigwaitinfo that is interrupted is called again.
  pub data Passes (s : System K) : System K → Type 0 where
    interrupted : s.phase ≡ waiting → Passes s s
    expires : Passes s (expire_timer s)
    marks : Passes s (mark_killed s)
    sends : s.killed ≡ true → Passes s (send_signal s)

  -- The states that can come, and the steps of the handler on the way.
  pub data Steps (s : System K) : ℕ → System K → Type 0 where
    rest : Steps s 0 s
    handler : {k : ℕ} {t u : System K} → Steps s k t → Handles t u → Steps s (suc k) u
    other : {k : ℕ} {t u : System K} → Steps s k t → Passes t u → Steps s k u
