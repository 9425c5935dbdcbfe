-- ===== src/Timerlib/Handler/Account.antt =====
-- The handler thread tells of every expiry that the kernel counts, once.
use mediawiki_php_excimer.Prelude.{
  ℕ, ◌+◌, ◌≡◌, refl, sym, ◌∙◌, inl, inr, true, false, some, List, [], ◌∷◌, arith, Bool-cases,
}
use mathlib.Core.Path.{subst}
use mediawiki_php_excimer.Timerlib.Handler.{
  on_signal-killed, on_signal-alive, Cause, timer, sender, SignalApi, exited, System,
  created_system, notify_ready, notify, mark_killed, send_signal, expire_timer, Handles, begins,
  receives, Passes, interrupted, expires, marks, sends, Steps, rest, handler, other,
}

-- The expiries that the calls of the notify function stand for.
unfoldable pub told_expiries : List ℕ → ℕ
told_expiries [] = 0
told_expiries (o ∷ os) = o + 1 + told_expiries os

module _ ⦃K : SignalApi⦄ where
  -- Until the thread is killed the expiries are told or wait.
  record Accounts (s : System K) : Type 0 where
    undisturbed : s.killed ≡ false → K.disturbed s.queue ≡ false
    counted : s.killed ≡ false → told_expiries s.told + K.expiries s.queue + s.lost ≡ s.expired

  created-Accounts : Accounts created_system
  unfolding told_expiries
  created-Accounts = record {
    undisturbed = λ h. K.disturbed-no_signal;
    counted = λ h. omega (arith, K.expiries-no_signal);
  }

  notify-Accounts :
      (s : System K) (c : Cause) (q : K.Queue)
      → K.take s.queue ≡ some (c, q)
      → s.killed ≡ false
      → Accounts s
      → Accounts (notify c (record s { queue = q }))
  unfolding notify told_expiries
  notify-Accounts s (timer o) q e alive a = record {
    undisturbed = λ h. K.disturbed-take s.queue (timer o) q e (a.undisturbed h);
    counted = λ h. omega (arith, a.counted h, K.expiries-take s.queue (timer o) q e);
  }
  notify-Accounts s sender q e alive a = record {
    undisturbed = λ h. K.disturbed-take s.queue sender q e (a.undisturbed h);
    counted = λ h. omega (arith, a.counted h, K.expiries-take s.queue sender q e);
  }

  -- Nothing is promised of a killed thread.
  Accounts-killed : (s : System K) → s.killed ≡ true → Accounts s
  Accounts-killed s k = record {
    undisturbed = λ h. let clash : true ≡ false = sym k ∙ h in cc;
    counted = λ h. let clash : true ≡ false = sym k ∙ h in cc;
  }

  Handles-Accounts : (s t : System K) → Handles s t → Accounts s → Accounts t
  unfolding notify_ready
  Handles-Accounts s t (begins h) a = record { undisturbed = a.undisturbed; counted = a.counted }
  Handles-Accounts s t (receives c q h e) a = elim (Bool-cases s.killed) [
    | inl k ↦
        subst Accounts (sym (on_signal-killed c (record s { queue = q }) k))
          (Accounts-killed (record s { queue = q; phase = exited }) k)
    | inr alive ↦
        subst Accounts (sym (on_signal-alive c (record s { queue = q }) alive))
          (notify-Accounts s c q e alive a)
  ]

  Passes-Accounts : (s t : System K) → Passes s t → Accounts s → Accounts t
  unfolding mark_killed send_signal expire_timer
  Passes-Accounts s t (interrupted h) a = a
  Passes-Accounts s t expires a = record {
    undisturbed = λ h. K.disturbed-expire s.queue ∙ a.undisturbed h;
    counted = λ h. ground (arith, a.counted h, K.expiries-expire s.queue (a.undisturbed h));
  }
  Passes-Accounts s t marks a = Accounts-killed (mark_killed s) refl
  Passes-Accounts s t (sends k) a = Accounts-killed (send_signal s) k

  Steps-Accounts : (n : ℕ) (s : System K) → Steps created_system n s → Accounts s
  Steps-Accounts n s rest = created-Accounts
  Steps-Accounts n s (handler {k} {t} {u} r h) = Handles-Accounts t s h (Steps-Accounts k t r)
  Steps-Accounts n s (other {k} {t} {u} r h) = Passes-Accounts t s h (Steps-Accounts k t r)

  -- In every interleaving, until the thread is killed, each expiry of the timer has been told to the
  -- notify function once, as itself or as an overrun, or waits as a signal, or came when the waiting
  -- signal counted DELAYTIMER_MAX overruns already and is lost.
  pub told-expired :
      (n : ℕ) (s : System K)
      → Steps created_system n s
      → s.killed ≡ false
      → told_expiries s.told + K.expiries s.queue + s.lost ≡ s.expired
  told-expired n s r alive = (Steps-Accounts n s r).counted alive
