-- ===== src/Timer/Mutex/Atomic.antt =====
-- The critical sections of the threads act as if each were one step.
use mathlib.Core.Path.{subst}
use mediawiki_php_excimer.Prelude.{
  ℕ, ◌+◌, ◌%◌, ◌^◌, ◌≡◌, refl, sym, ap, ◌∙◌, true, false, Option, none, some, List, [], ◌∷◌, ◌++◌,
}
use mediawiki_php_excimer.Run.{ok}
use mediawiki_php_excimer.Timer.{Ptr, PendingList}
use mediawiki_php_excimer.Timer.Pending.{add_events, list_enqueue, take_count}
use mediawiki_php_excimer.Timer.Interleaving.{
  Event, replay, expired, told, Consistent, told-memory, fresh-Implements,
}
use mediawiki_php_excimer.Timer.Notify.{Pending, Implements, notify, dequeue}
use mediawiki_php_excimer.Timer.Mutex.{
  nobody, asleep, entered, locked, counted, queued, released, running, asks, holds, dequeued, took,
  returned, System, goto, Step, enter, lock, count, enqueue, unlock, store, vm_interrupted, vm_lock,
  vm_dequeue, vm_take, vm_unlock, vm_unlock_empty, vm_call, vm_return, vm_done, Reach, start, later,
}
use mediawiki_php_excimer.Timer.Mutex.Moves.{
  Section-holds, VmSection-holds, unowned, inside-Inv, leave-Inv, lock-Inv, elsewhere-Inv,
  vm_inside-Inv, vm_leave-Inv, vm_lock-Inv, vm_elsewhere-Inv,
}
use mediawiki_php_excimer.Timer.Mutex.Section.{Inv, enqueue-Implements, dequeue-Implements}

pub dequeue-none : (q : Pending) → none ≡ (dequeue q).0 → q ≡ []
unfolding dequeue
dequeue-none [] e = refl
dequeue-none (x ∷ q) e = cc

after_empty : (m : PendingList) (q : Pending) → q ≡ [] → Implements m (dequeue q).1 → Implements m q
unfolding dequeue
after_empty m [] e i = i
after_empty m (x ∷ q) e i = cc

ok_injective : {A : Type 0} {a b : A} → ok a ≡ ok b → a ≡ b
ok_injective h = cc

module _ (es : List Event) {s : System} (inv : Inv (replay es) s) where
  counted-Inv :
      (i : ℕ) (t : Ptr) (o : ℕ)
      → s.pcs i ≡ locked t o
      → Inv (replay es) (record (goto s i (counted t o)) { mem = add_events t o s.mem })
  counted-Inv i t o e =
      let (imp, ht) = Section-holds inv i (locked t o) e refl in
      inside-Inv inv i (locked t o) (counted t o) e _ refl refl (s.mem, imp, refl, ht)

  queued-Inv :
      (i : ℕ) (t : Ptr) (o : ℕ) (m : PendingList)
      → s.pcs i ≡ counted t o
      → list_enqueue t s.mem ≡ ok m
      → Inv (replay es) (record (goto s i (queued t o)) { mem = m })
  queued-Inv i t o m e e_m =
      let (m0, imp, is_m0, ht) = Section-holds inv i (counted t o) e refl in
      let (m', e', imp') = enqueue-Implements m0 (replay es) t o ht imp in
      let same : m' ≡ m = ok_injective (sym e' ∙ ap (list_enqueue t) (sym is_m0) ∙ e_m) in
      inside-Inv inv i (counted t o) (queued t o) e m refl refl
        (subst (λ n. Implements n (notify t (o + 1) (replay es))) same imp')

  took-Inv :
      (r : Option Ptr) (taken : Option (Ptr × ℕ)) (m : PendingList)
      → s.vm_pc ≡ dequeued r
      → take_count (r, s.mem) ≡ ok (taken, m)
      → Inv (replay es) (record s { mem = m; vm_pc = took taken })
  took-Inv r taken m e e_m =
      let (m0, imp, e_r) = VmSection-holds inv (dequeued r) e refl in
      let (r', m1, m2, e1, e2, imp') = dequeue-Implements m0 (replay es) imp in
      let first : (r', m1) ≡ (r, s.mem) = ok_injective (sym e1 ∙ e_r) in
      let second : ((dequeue (replay es)).0, m2) ≡ (taken, m) =
        ok_injective (sym e2 ∙ ap take_count first ∙ e_m) in
      vm_inside-Inv inv (dequeued r) (took taken) e m refl (
        subst (λ n. Implements n (dequeue (replay es)).1) (ap (λ x. x.1) second) imp',
        sym (ap (λ x. x.0) second),
      )

-- Every step of every thread keeps the invariant.
pub Step-Inv :
    (es : List Event) {new : List Event} {s s' : System}
    → Inv (replay es) s
    → Step s new s'
    → Inv (replay (new ++ es)) s'
Step-Inv es {s = s} inv (enter i t o e) =
    elsewhere-Inv inv i asleep (entered t o) e s.vm_interrupt refl refl
Step-Inv es inv (lock i t o result e ht free ret) =
    lock-Inv inv i (entered t o) (locked t o) e refl free (unowned inv free, ht)
Step-Inv es inv (count i t o e) = counted-Inv es inv i t o e
Step-Inv es inv (enqueue i t o m e e_m) = queued-Inv es inv i t o m e e_m
Step-Inv es inv (unlock i t o result e ret) =
    leave-Inv inv i (queued t o) (released t) e (notify t (o + 1) (replay es)) refl refl
      (Section-holds inv i (queued t o) e refl)
Step-Inv es inv (store i t e) = elsewhere-Inv inv i (released t) asleep e true refl refl
Step-Inv es {s = s} inv (vm_interrupted e flag) =
    vm_elsewhere-Inv inv running asks e false s.depth refl refl
Step-Inv es inv (vm_lock result e free ret) = vm_lock-Inv inv asks holds e free (unowned inv free)
Step-Inv es {s = s} inv (vm_dequeue r m e e_m) =
    vm_inside-Inv inv holds (dequeued r) e m refl (s.mem, VmSection-holds inv holds e refl, e_m)
Step-Inv es inv (vm_take r taken m e e_m) = took-Inv es inv r taken m e e_m
Step-Inv es inv (vm_unlock t c result e ret) =
    vm_leave-Inv inv (took (some (t, c))) (returned (some (t, c))) e (dequeue (replay es)).1 refl
      refl (VmSection-holds inv (took (some (t, c))) e refl).0
Step-Inv es {s = s} inv (vm_unlock_empty result e ret) =
    let (imp, is_none) = VmSection-holds inv (took none) e refl in
    vm_leave-Inv inv (took none) (returned none) e (replay es) refl refl
      (after_empty s.mem (replay es) (dequeue-none (replay es) is_none) imp)
Step-Inv es {s = s} inv (vm_call t c e) =
    vm_elsewhere-Inv inv (returned (some (t, c))) running e s.vm_interrupt (s.depth + 1) refl refl
Step-Inv es {s = s} inv (vm_return d e has) =
    vm_elsewhere-Inv inv running asks e s.vm_interrupt d refl refl
Step-Inv es {s = s} inv (vm_done e) =
    vm_elsewhere-Inv inv (returned none) running e s.vm_interrupt s.depth refl refl

pub Reach-Inv : {es : List Event} {s : System} → Reach es s → Inv (replay es) s
Reach-Inv start = record { owned = fresh-Implements; exclusive = λ i c. cc; vm_exclusive = λ c. cc }
Reach-Inv (later {es = es} r step) = Step-Inv es (Reach-Inv r) step

-- The events of a step are those of the abstract queue.
Step-Consistent :
    (es : List Event) {new : List Event} {s s' : System}
    → Inv (replay es) s
    → Step s new s'
    → Consistent es
    → Consistent (new ++ es)
Step-Consistent es inv (enter i t o e) h = h
Step-Consistent es inv (lock i t o result e ht free ret) h = h
Step-Consistent es inv (count i t o e) h = h
Step-Consistent es inv (enqueue i t o m e e_m) h = h
Step-Consistent es inv (unlock i t o result e ret) h = h
Step-Consistent es inv (store i t e) h = h
Step-Consistent es inv (vm_interrupted e flag) h = h
Step-Consistent es inv (vm_lock result e free ret) h = h
Step-Consistent es inv (vm_dequeue r m e e_m) h = h
Step-Consistent es inv (vm_take r taken m e e_m) h = h
Step-Consistent es inv (vm_unlock t c result e ret) h =
    (sym (VmSection-holds inv (took (some (t, c))) e refl).1, h)
Step-Consistent es inv (vm_unlock_empty result e ret) h = h
Step-Consistent es inv (vm_call t c e) h = h
Step-Consistent es inv (vm_return d e has) h = h
Step-Consistent es inv (vm_done e) h = h

Reach-Consistent : {es : List Event} {s : System} → Reach es s → Consistent es
Reach-Consistent start = tt
Reach-Consistent (later {es = es} r step) =
    Step-Consistent es (Reach-Inv r) step (Reach-Consistent r)

-- Whatever the order in which the steps of the threads come, while nobody has the mutex the memory
-- represents the abstract queue of the critical sections that were left, as if each had been one
-- step: no thread sees or leaves a half-changed list.
pub Reach-Implements :
    {es : List Event} {s : System} → Reach es s → s.owner ≡ nobody → Implements s.mem (replay es)
Reach-Implements r free = unowned (Reach-Inv r) free

-- Whatever the order of the steps, while nobody has the mutex no expiry has been lost and none is
-- counted twice: the events that were taken for the callback of a timer and those in its
-- `event_count` are together the expiries that were notified, modulo 2^64.
pub expired-taken :
    {es : List Event} {s : System}
    → Reach es s
    → s.owner ≡ nobody
    → (p : Ptr) → (told p es + s.mem.event_count p) % 2 ^ 64 ≡ expired p es % 2 ^ 64
expired-taken {es = es} r free p = told-memory es (Reach-Consistent r) (Reach-Implements r free) p
