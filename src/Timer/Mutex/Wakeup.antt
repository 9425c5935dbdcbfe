-- ===== src/Timer/Mutex/Wakeup.antt =====
-- A queued timer is not forgotten: something will still make the virtual machine look.
use mediawiki_php_excimer.Prelude.{
  ℕ, ◌<◌, ◌≡◌, ◌⊎◌, refl, ap, inl, inr, Bool, true, false, none, some, List, [], ◌++◌, arith, ◌==◌,
  ==_iff, Bool-cases,
}
use mediawiki_php_excimer.Timer.{PendingList}
use mediawiki_php_excimer.Timer.Interleaving.{Event, replay}
use mediawiki_php_excimer.Timer.Notify.{Pending}
use mediawiki_php_excimer.Timer.Mutex.{
  Owner, handler, Pc, asleep, entered, locked, counted, queued, released, VmPc, running, asks,
  holds, dequeued, took, returned, System, goto, Step, enter, lock, count, enqueue, unlock, store,
  vm_interrupted, vm_lock, vm_dequeue, vm_take, vm_unlock, vm_unlock_empty, vm_call, vm_return,
  vm_done, Reach, start, later,
}
use mediawiki_php_excimer.Timer.Mutex.Section.{Inv, update_here}
use mediawiki_php_excimer.Timer.Mutex.Moves.{VmSection-holds}
use mediawiki_php_excimer.Timer.Mutex.Atomic.{dequeue-none, Reach-Inv}

-- The handler thread is about to set the flag.
abbrev pub is_released : Pc → Bool
is_released asleep = false
is_released (entered t o) = false
is_released (locked t o) = false
is_released (counted t o) = false
is_released (queued t o) = false
is_released (released t) = true

-- The loop of excimer_timer_interrupt will look at the list again.
abbrev pub will_look : VmPc → Bool
will_look running = false
will_look asks = true
will_look holds = true
will_look (dequeued r) = true
will_look (took r) = true
will_look (returned none) = false
will_look (returned (some e)) = true

-- Why the virtual machine will look at the list: the flag is set, or a handler thread is about to set
-- it, or the loop goes on, or a loop waits for its callback to return.
pub data WillLook (s : System) : Type 0 where
  flagged : s.vm_interrupt ≡ true → WillLook s
  storing : (i : ℕ) → is_released (s.pcs i) ≡ true → WillLook s
  looping : will_look s.vm_pc ≡ true → WillLook s
  nested : 0 < s.depth → WillLook s

abbrev pub Noticed : Pending → System → Type 0
Noticed q s = (q ≡ []) ⊎ WillLook s

-- A step of a handler thread that is not about to set the flag.
WillLook-goto :
    (s : System) (i : ℕ) (p : Pc) (m : PendingList) (o : Owner)
    → is_released (s.pcs i) ≡ false
    → WillLook s
    → WillLook (record (goto s i p) { mem = m; owner = o })
WillLook-goto s i p m o e (flagged h) = flagged h
WillLook-goto s i p m o e (looping h) = looping h
WillLook-goto s i p m o e (nested h) = nested h
WillLook-goto s i p m o e (storing j h) = elim (Bool-cases (j == i)) [
  | inl same ↦ let here : j ≡ i = (==_iff j i).0 same in cc (e, h, ap s.pcs here)
  | inr other ↦ storing j (rw other h)
]

Noticed-goto :
    (q : Pending) (s : System) (i : ℕ) (p p' : Pc) (m : PendingList) (o : Owner)
    → s.pcs i ≡ p
    → is_released p ≡ false
    → Noticed q s
    → Noticed q (record (goto s i p') { mem = m; owner = o })
Noticed-goto q s i p p' m o e r (inl empty) = inl empty
Noticed-goto q s i p p' m o e r (inr w) = inr (WillLook-goto s i p' m o (rw e r) w)

WillLook-done :
    (s : System) → s.vm_pc ≡ returned none → WillLook s → WillLook (record s { vm_pc = running })
WillLook-done s e (flagged h) = flagged h
WillLook-done s e (storing i h) = storing i h
WillLook-done s e (looping h) = cc (h, ap will_look e)
WillLook-done s e (nested h) = nested h

-- Every step keeps the promise.
Step-Noticed :
    (es : List Event) {new : List Event} {s s' : System}
    → Inv (replay es) s
    → Step s new s'
    → Noticed (replay es) s
    → Noticed (replay (new ++ es)) s'
Step-Noticed es {s = s} inv (enter i t o e) n =
    Noticed-goto (replay es) s i asleep (entered t o) s.mem s.owner e refl n
Step-Noticed es {s = s} inv (lock i t o result e ht free ret) n =
    Noticed-goto (replay es) s i (entered t o) (locked t o) s.mem (handler i) e refl n
Step-Noticed es {s = s} inv (count i t o e) n =
    Noticed-goto (replay es) s i (locked t o) (counted t o) _ s.owner e refl n
Step-Noticed es {s = s} inv (enqueue i t o m e e_m) n =
    Noticed-goto (replay es) s i (counted t o) (queued t o) m s.owner e refl n
Step-Noticed es {s = s} inv (unlock i t o result e ret) n =
    inr (storing i (rw (update_here s.pcs i (released t)) refl))
Step-Noticed es inv (store i t e) n = inr (flagged refl)
Step-Noticed es inv (vm_interrupted e flag) n = inr (looping refl)
Step-Noticed es inv (vm_lock result e free ret) n = inr (looping refl)
Step-Noticed es inv (vm_dequeue r m e e_m) n = inr (looping refl)
Step-Noticed es inv (vm_take r taken m e e_m) n = inr (looping refl)
Step-Noticed es inv (vm_unlock t c result e ret) n = inr (looping refl)
Step-Noticed es inv (vm_unlock_empty result e ret) n =
    inl (dequeue-none (replay es) (VmSection-holds inv (took none) e refl).1)
Step-Noticed es inv (vm_call t c e) n = inr (nested (omega arith))
Step-Noticed es inv (vm_return d e has) n = inr (looping refl)
Step-Noticed es inv (vm_done e) (inl empty) = inl empty
Step-Noticed es {s = s} inv (vm_done e) (inr w) = inr (WillLook-done s e w)

-- Whatever the order of the steps, while a timer waits in the queue the virtual machine's flag is
-- set, or a handler thread is about to set it, or the loop of the interrupt function will look again,
-- or such a loop waits for a callback to return. No wake-up is lost.
pub Reach-Noticed : {es : List Event} {s : System} → Reach es s → Noticed (replay es) s
Reach-Noticed start = inl refl
Reach-Noticed (later {es = es} r step) = Step-Noticed es (Reach-Inv r) step (Reach-Noticed r)
