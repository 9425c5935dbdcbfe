-- ===== src/Timer/Mutex/Section.antt =====
-- What holds between the steps: only the owner of the mutex is in a critical section, and the memory
-- is as far as the owner has come.
use mathlib.Core.Path.{subst}
use mediawiki_php_excimer.Prelude.{ℕ, ◌+◌, ◌≡◌, ◌≢◌, refl, Bool, true, false, Option, ==_iff}
use mediawiki_php_excimer.Run.{ok, >>=-eq-ok}
use mediawiki_php_excimer.Timer.{Ptr, null, update, PendingList}
use mediawiki_php_excimer.Timer.Pending.{
  add_events, list_enqueue, list_dequeue, take_count, handle, pending_dequeue,
}
use mediawiki_php_excimer.Timer.Notify.{
  Pending, Implements, notify, dequeue, timers, recount, handle-Implements,
  pending_dequeue-Implements,
}
use mediawiki_php_excimer.Timer.Mutex.{
  Owner, nobody, handler, vm, Pc, asleep, entered, locked, counted, queued, released, VmPc, running,
  asks, holds, dequeued, took, returned, System,
}

abbrev pub critical : Pc → Bool
critical asleep = false
critical (entered t o) = false
critical (locked t o) = true
critical (counted t o) = true
critical (queued t o) = true
critical (released t) = false

abbrev pub vm_critical : VmPc → Bool
vm_critical running = false
vm_critical asks = false
vm_critical holds = true
vm_critical (dequeued r) = true
vm_critical (took r) = true
vm_critical (returned r) = false

-- The memory, while a handler thread is in its critical section; `q` is the queue before it.
abbrev pub Section : Pc → PendingList → Pending → Type 0
Section asleep m q = ⊥
Section (entered t o) m q = ⊥
Section (locked t o) m q = Implements m q × (t ≢ null)
Section (counted t o) m q =
    (m0 : PendingList) × Implements m0 q × (m ≡ add_events t o m0) × (t ≢ null)
Section (queued t o) m q = Implements m (notify t (o + 1) q)
Section (released t) m q = ⊥

abbrev pub VmSection : VmPc → PendingList → Pending → Type 0
VmSection running m q = ⊥
VmSection asks m q = ⊥
VmSection holds m q = Implements m q
VmSection (dequeued r) m q = (m0 : PendingList) × Implements m0 q × (list_dequeue m0 ≡ ok (r, m))
VmSection (took taken) m q = Implements m (dequeue q).1 × (taken ≡ (dequeue q).0)
VmSection (returned r) m q = ⊥

abbrev pub Owned : Owner → System → Pending → Type 0
Owned nobody s q = Implements s.mem q
Owned (handler i) s q = Section (s.pcs i) s.mem q
Owned vm s q = VmSection s.vm_pc s.mem q

-- `q` is the queue that the completed critical sections give.
pub record Inv (q : Pending) (s : System) : Type 0 where
  pub owned : Owned s.owner s q
  pub exclusive : (i : ℕ) → critical (s.pcs i) ≡ true → s.owner ≡ handler i
  pub vm_exclusive : vm_critical s.vm_pc ≡ true → s.owner ≡ vm

pub update_here {ℓ} : {A : Type ℓ} (f : ℕ → A) (i : ℕ) (a : A) → update f i a i ≡ a
update_here f i a = rw ((==_iff i i).1 refl)

-- The queue does not depend on the flag in the memory.
Implements-unraised :
    (m : PendingList) (b : Bool) (q : Pending)
    → Implements (record m { vm_interrupt = b }) q
    → Implements m q
Implements-unraised m b q i = record {
  queue = recount (record m { vm_interrupt = b }) m.event_count m.vm_interrupt (timers q) i.queue;
  counts = i.counts;
  idle = i.idle;
}

-- After the event count, the enqueueing succeeds and completes the notification.
pub enqueue-Implements :
    (m : PendingList) (q : Pending) (t : Ptr) (o : ℕ)
    → t ≢ null
    → Implements m q
    → (m' : PendingList) × (list_enqueue t (add_events t o m) ≡ ok m')
      × Implements m' (notify t (o + 1) q)
unfolding handle
enqueue-Implements m q t o ht i =
    let (m1, e, j, raised) = handle-Implements m q t o ht i in
    let (m', e', same) =
      >>=-eq-ok (list_enqueue t (add_events t o m))
        (λ (n : PendingList). ok (record n { vm_interrupt = true })) e in
    let is_raised : m1 ≡ record m' { vm_interrupt = true } = cc in
    (
      m',
      e',
      Implements-unraised m' true _ (subst (λ n. Implements n (notify t (o + 1) q)) is_raised j),
    )

-- The dequeueing succeeds; reading the event count completes it.
pub dequeue-Implements :
    (m : PendingList) (q : Pending)
    → Implements m q
    → (r : Option Ptr) × (m1 m2 : PendingList) × (list_dequeue m ≡ ok (r, m1))
      × (take_count (r, m1) ≡ ok ((dequeue q).0, m2))
      × Implements m2 (dequeue q).1
unfolding pending_dequeue
dequeue-Implements m q i =
    let (m2, e, j) = pending_dequeue-Implements m q i in
    let (p, e1, e2) = >>=-eq-ok (list_dequeue m) take_count e in (p.0, p.1, m2, e1, e2, j)
