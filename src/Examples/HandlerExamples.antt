-- ===== src/Examples/HandlerExamples.antt =====
-- The theorems on the handler thread of timerlib_posix.c: the timer expires twice before the thread
-- takes the signal, and then the thread is told to exit.
use mediawiki_php_excimer.Prelude.{
  ℕ, ◌+◌, ◌≡◌, ◌≢◌, refl, Bool, true, false, Option, none, some, arith, ltb, if◌then◌else◌,
}
use mediawiki_php_excimer.Timerlib.Handler.{
  Cause, timer, sender, expiries_of, SignalApi, System, created_system, notify_ready, notify,
  on_signal, mark_killed, send_signal, expire_timer, begins, receives, expires, marks, sends, Steps,
  rest, handler, other,
}
use mediawiki_php_excimer.Timerlib.Handler.Account.{told_expiries, told-expired}

-- One signal waits at a time.
pub data Signals : Type 0 where
  calm wild wild_sender : Signals
  calm_timer wild_timer : (si_overrun : ℕ) → Signals

-- DELAYTIMER_MAX.
abbrev pub maximum : ℕ
maximum = 2147483647

abbrev pub overrun : ℕ → ℕ
overrun o = if ltb maximum (o + 1) then o else o + 1

abbrev pub expire_one : Signals → Signals
expire_one calm = calm_timer 0
expire_one wild = wild_timer 0
expire_one wild_sender = wild_sender
expire_one (calm_timer o) = calm_timer (overrun o)
expire_one (wild_timer o) = wild_timer (overrun o)

abbrev pub kill_one : Signals → Signals
kill_one calm = wild_sender
kill_one wild = wild_sender
kill_one wild_sender = wild_sender
kill_one (calm_timer o) = wild_timer o
kill_one (wild_timer o) = wild_timer o

abbrev pub take_one : Signals → Option (Cause × Signals)
take_one calm = none
take_one wild = none
take_one wild_sender = some (sender, wild)
take_one (calm_timer o) = some (timer o, calm)
take_one (wild_timer o) = some (timer o, wild)

abbrev pub waiting_expiries : Signals → ℕ
waiting_expiries calm = 0
waiting_expiries wild = 0
waiting_expiries wild_sender = 0
waiting_expiries (calm_timer o) = o + 1
waiting_expiries (wild_timer o) = o + 1

abbrev pub is_wild : Signals → Bool
is_wild calm = false
is_wild wild = true
is_wild wild_sender = true
is_wild (calm_timer o) = false
is_wild (wild_timer o) = true

pub expiries-expire_one :
    (q : Signals)
    → is_wild q ≡ false
    → waiting_expiries (expire_one q)
      ≡ (if ltb maximum (waiting_expiries q) then waiting_expiries q else waiting_expiries q + 1)
expiries-expire_one calm h = refl
expiries-expire_one wild h = absurd (cc)
expiries-expire_one wild_sender h = absurd (cc)
expiries-expire_one (calm_timer o) h = ground arith
expiries-expire_one (wild_timer o) h = absurd (cc)

pub is_wild-expire_one : (q : Signals) → is_wild (expire_one q) ≡ is_wild q
is_wild-expire_one calm = refl
is_wild-expire_one wild = refl
is_wild-expire_one wild_sender = refl
is_wild-expire_one (calm_timer o) = refl
is_wild-expire_one (wild_timer o) = refl

pub take-expire_one : (q : Signals) → take_one (expire_one q) ≢ none
take-expire_one calm h = cc
take-expire_one wild h = cc
take-expire_one wild_sender h = cc
take-expire_one (calm_timer o) h = cc
take-expire_one (wild_timer o) h = cc

pub take-kill_one : (q : Signals) → take_one (kill_one q) ≢ none
take-kill_one calm h = cc
take-kill_one wild h = cc
take-kill_one wild_sender h = cc
take-kill_one (calm_timer o) h = cc
take-kill_one (wild_timer o) h = cc

pub expiries-take_one :
    (q : Signals) (c : Cause) (q' : Signals)
    → take_one q ≡ some (c, q')
    → waiting_expiries q ≡ expiries_of c + waiting_expiries q'
expiries-take_one calm c q' h = absurd (cc)
expiries-take_one wild c q' h = absurd (cc)
expiries-take_one wild_sender c q' h = ground arith
expiries-take_one (calm_timer o) c q' h = ground arith
expiries-take_one (wild_timer o) c q' h = ground arith

pub is_wild-take_one :
    (q : Signals) (c : Cause) (q' : Signals)
    → take_one q ≡ some (c, q')
    → is_wild q ≡ false
    → is_wild q' ≡ false
is_wild-take_one calm c q' h k = absurd (cc)
is_wild-take_one wild c q' h k = absurd (cc)
is_wild-take_one wild_sender c q' h k = absurd (cc)
is_wild-take_one (calm_timer o) c q' h k = ground arith
is_wild-take_one (wild_timer o) c q' h k = absurd (cc)

instance abbrev pub signals : SignalApi
signals = record {
  Queue = Signals;
  no_signal = calm;
  expire = expire_one;
  kill = kill_one;
  take = take_one;
  expiries = waiting_expiries;
  disturbed = is_wild;
  delaytimer_max = maximum;
  expiries-no_signal = refl;
  disturbed-no_signal = refl;
  expiries-expire = expiries-expire_one;
  disturbed-expire = is_wild-expire_one;
  take-expire = take-expire_one;
  take-kill = take-kill_one;
  expiries-take = expiries-take_one;
  disturbed-take = is_wild-take_one;
}

abbrev pub expired_twice : System signals
expired_twice = expire_timer (expire_timer (notify_ready created_system))

abbrev pub told_once : System signals
told_once = on_signal (timer 1) (record expired_twice { queue = calm })

abbrev pub before : Steps created_system 2 told_once
unfolding notify_ready expire_timer
before =
    handler (other (other (handler rest (begins refl)) expires) expires)
      (receives (timer 1) calm refl refl)

told-expired_example :
    told_expiries told_once.told + waiting_expiries told_once.queue + told_once.lost
    ≡ told_once.expired
unfolding on_signal notify_ready expire_timer before notify
told-expired_example = told-expired 2 told_once before refl

abbrev signalled : System signals
signalled = send_signal (mark_killed told_once)

abbrev until : Steps created_system 2 signalled
unfolding mark_killed before
until = other (other before marks) (sends refl)
