-- ===== src/Timer/Interrupt.antt =====
-- excimer_timer_interrupt, which the virtual machine calls when the flag is set: it hands every
-- pending timer to its callback, then calls the interrupt function that was installed before.
use mediawiki_php_excimer.Prelude.{ℕ, zero, suc, ◌≡◌, refl, Option, none, some, [], ◌∷◌, arith, ◌<◌}
use mediawiki_php_excimer.Run.{Run, ok, out_of_fuel, ◌>>=◌}
use mediawiki_php_excimer.Timer.{Ptr, PendingList}
use mediawiki_php_excimer.Timer.Pending.{pending_dequeue}
use mediawiki_php_excimer.Timer.Notify.{Pending, Implements, dequeue, pending_dequeue-Implements}

-- `S` is the state that the callbacks work on beside the pending list; `callback t c` is
-- `timer->callback(c, timer->user_data)`.
module _ {ℓ} {S : Type ℓ} (callback : Ptr → ℕ → S × PendingList → Run (S × PendingList)) where
  abbrev call :
      (S × PendingList → Run (S × PendingList))
      → S
      → Option (Ptr × ℕ)
      → PendingList
      → Run (S × PendingList)
  call next s none m = ok (s, m)
  call next s (some (t, c)) m = callback t c (s, m) >>= next

  -- The `while` loop, cut short after `fuel` rounds.
  unfoldable pub drain : ℕ → S × PendingList → Run (S × PendingList)
  drain zero s = out_of_fuel
  drain (suc fuel) (s, m) = do (found, m') ← pending_dequeue m; call (drain fuel) s found m'

  unfoldable pub call_old :
      Option (S × PendingList → Run (S × PendingList)) → S × PendingList → Run (S × PendingList)
  call_old none s = ok s
  call_old (some old) s = old s

  unfoldable pub interrupt :
      Option (S × PendingList → Run (S × PendingList)) → ℕ → S × PendingList → Run (S × PendingList)
  interrupt old fuel s = drain fuel s >>= call_old old

-- `zend_interrupt_function` of the virtual machine and `excimer_timer_globals`, for functions `F`.
pub record Hooks (F : Type 0) : Type 0 where
  pub zend_interrupt_function : Option F
  pub old_zend_interrupt_function : Option F

module _ {F : Type 0} where
  -- excimer_timer_module_init: `excimer_timer_interrupt` is put before the function that was there.
  unfoldable pub module_init : (excimer_timer_interrupt : F) → Hooks F → Hooks F
  module_init excimer_timer_interrupt hooks = record {
    zend_interrupt_function = some excimer_timer_interrupt;
    old_zend_interrupt_function = hooks.zend_interrupt_function;
  }

  -- excimer_timer_module_shutdown, which leaves it there.
  unfoldable pub module_shutdown : Hooks F → Hooks F
  module_shutdown hooks = hooks

abbrev pub length_pending : Pending → ℕ
length_pending [] = 0
length_pending (e ∷ q) = suc (length_pending q)

-- Each pending timer was served once, in the order of the queue: `does t c s s'` says what the callback
-- of `t` does with `c` events.
pub data Served {ℓ κ} {S : Type ℓ} (does : Ptr → ℕ → S → S → Type κ)
    : Pending → S → S → Type (ℓ ⊔ κ) where
  none_left : (s : S) → Served does [] s s
  served :
      (t : Ptr) (c : ℕ) (q : Pending) (s s' s'' : S)
      → does t c s s'
      → Served does q s' s''
      → Served does ((t, c) ∷ q) s s''

-- What the callbacks owe: in a state that is `ready n`, which allows n more calls, a callback returns,
-- does its work, and keeps what the pending list stands for.
module _ {ℓ κ} {S : Type ℓ} (callback : Ptr → ℕ → S × PendingList → Run (S × PendingList))
    (ready : ℕ → S → Type κ) (does : Ptr → ℕ → S → S → Type κ)
    (serves : (n : ℕ) (t : Ptr) (c : ℕ) (s : S) (m : PendingList) (q : Pending)
      → ready (suc n) s
      → Implements m q
      → (s' : S) × (m' : PendingList) × (callback t c (s, m) ≡ ok (s', m'))
        × does t c s s'
        × ready n s'
        × Implements m' q) where
  drain-Implements :
      (fuel : ℕ) (q : Pending) (s : S) (m : PendingList)
      → Implements m q
      → ready (length_pending q) s
      → length_pending q < fuel
      → (s' : S) × (m' : PendingList) × (drain callback fuel (s, m) ≡ ok (s', m'))
        × Served does q s s'
        × Implements m' []
  unfolding drain dequeue
  drain-Implements zero q s m r k few = absurd (omega arith)
  drain-Implements (suc fuel) [] s m r k few =
      let (m1, e, r1) = pending_dequeue-Implements m [] r in (s, m1, rw e refl, none_left s, r1)
  drain-Implements (suc fuel) ((t, c) ∷ q) s m r k few =
      let (m1, e1, r1) = pending_dequeue-Implements m ((t, c) ∷ q) r in
      let (s2, m2, e2, done, k2, r2) = serves (length_pending q) t c s m1 q k r1 in
      let (s3, m3, e3, rest, r3) = drain-Implements fuel q s2 m2 r2 k2 (omega arith) in
      (s3, m3, rw (e1, e2) e3, served t c q s s2 s3 done rest, r3)

  -- If each callback returns, does its work and keeps what the pending list stands for, in the states
  -- that it meets, the interrupt ends: it serves each pending timer once with its number of events, in
  -- the order of the queue, leaves the queue empty, and calls the interrupt function that was there
  -- before, if there was one.
  pub interrupt-Implements :
      (old : Option (S × PendingList → Run (S × PendingList))) (fuel : ℕ) (q : Pending) (s : S)
      (m : PendingList)
      → Implements m q
      → ready (length_pending q) s
      → length_pending q < fuel
      → (s' : S) × (m' : PendingList) × (interrupt callback old fuel (s, m)
          ≡ call_old callback old (s', m'))
        × Served does q s s'
        × Implements m' []
  unfolding interrupt
  interrupt-Implements old fuel q s m r k few =
      let (s', m', e, done, r') = drain-Implements fuel q s m r k few in
      (s', m', rw e refl, done, r')
