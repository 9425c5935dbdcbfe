-- ===== src/Timer/Mutex/Progress.antt =====
-- The owner of the mutex is never stuck.
use mediawiki_php_excimer.Prelude.{
  ℕ, ◌+◌, ◌≤◌, ◌≡◌, ◌≢◌, refl, ap, ◌∙◌, Option, none, some, List, [], arith,
}
use mediawiki_php_excimer.Run.{ok}
use mediawiki_php_excimer.Timer.{Ptr, PendingList}
use mediawiki_php_excimer.Timer.Pending.{list_enqueue, take_count}
use mediawiki_php_excimer.Timer.Interleaving.{Event, replay}
use mediawiki_php_excimer.Timer.Notify.{Pending}
use mediawiki_php_excimer.Timer.Mutex.{
  Owner, nobody, handler, vm, Pc, asleep, entered, locked, counted, queued, released, VmPc, running,
  asks, holds, dequeued, took, returned, System, mutex_unlock, Step, count, enqueue, unlock,
  vm_dequeue, vm_take, vm_unlock, vm_unlock_empty, Reach,
}
use mediawiki_php_excimer.Timer.Mutex.Section.{
  Section, VmSection, Owned, update_here, enqueue-Implements, dequeue-Implements,
}
use mediawiki_php_excimer.Timer.Mutex.Atomic.{Reach-Inv}

-- The steps that are left to the owner up to its unlock.
abbrev pub pc_left : Pc → ℕ
pc_left asleep = 0
pc_left (entered t o) = 0
pc_left (locked t o) = 3
pc_left (counted t o) = 2
pc_left (queued t o) = 1
pc_left (released t) = 0

abbrev pub vm_left : VmPc → ℕ
vm_left running = 0
vm_left asks = 0
vm_left holds = 3
vm_left (dequeued r) = 2
vm_left (took r) = 1
vm_left (returned r) = 0

abbrev pub owner_left : Owner → System → ℕ
owner_left nobody s = 0
owner_left (handler i) s = pc_left (s.pcs i)
owner_left vm s = vm_left s.vm_pc

abbrev pub left : System → ℕ
left s = owner_left s.owner s

pub record Moves (n : ℕ) (s : System) : Type 0 where
  pub new : List Event
  pub next : System
  pub step : Step s new next
  pub nearer : left next + 1 ≡ n

take_count-ok :
    (r : Option Ptr) (m : PendingList)
    → (taken : Option (Ptr × ℕ)) × (m' : PendingList) × (take_count (r, m) ≡ ok (taken, m'))
unfolding take_count
take_count-ok none m = (none, m, refl)
take_count-ok (some t) m = (_, _, refl)

module _ (q : Pending) (s : System) where
  handler-Moves :
      (i : ℕ) (p : Pc) → s.owner ≡ handler i → s.pcs i ≡ p → Section p s.mem q → Moves (pc_left p) s
  handler-Moves i asleep has e sec = absurd sec
  handler-Moves i (entered t o) has e sec = absurd sec
  handler-Moves i (released t) has e sec = absurd sec
  handler-Moves i (locked t o) has e sec = record {
    new = [];
    next = _;
    step = count i t o e;
    nearer = rw (has, update_here s.pcs i (counted t o)) refl;
  }
  handler-Moves i (counted t o) has e (m0, imp, is_m0, ht) =
      let (m, e_m, imp') = enqueue-Implements m0 q t o ht imp in
      record {
        new = [];
        next = _;
        step = enqueue i t o m e (ap (list_enqueue t) is_m0 ∙ e_m);
        nearer = rw (has, update_here s.pcs i (queued t o)) refl;
      }
  handler-Moves i (queued t o) has e sec = record {
    new = _;
    next = _;
    step = unlock i t o 0 e (unfold mutex_unlock in refl);
    nearer = refl;
  }

  vm-Moves : (p : VmPc) → s.owner ≡ vm → s.vm_pc ≡ p → VmSection p s.mem q → Moves (vm_left p) s
  vm-Moves running has e sec = absurd sec
  vm-Moves asks has e sec = absurd sec
  vm-Moves (returned r) has e sec = absurd sec
  vm-Moves holds has e sec =
      let (r, m1, m2, e1, e2, imp) = dequeue-Implements s.mem q sec in
      record { new = []; next = _; step = vm_dequeue r m1 e e1; nearer = rw has refl }
  vm-Moves (dequeued r) has e (m0, imp, e_r) =
      let (taken, m, e_m) = take_count-ok r s.mem in
      record { new = []; next = _; step = vm_take r taken m e e_m; nearer = rw has refl }
  vm-Moves (took none) has e sec = record {
    new = [];
    next = _;
    step = vm_unlock_empty 0 e (unfold mutex_unlock in refl);
    nearer = refl;
  }
  vm-Moves (took (some (t, c))) has e sec = record {
    new = _;
    next = _;
    step = vm_unlock t c 0 e (unfold mutex_unlock in refl);
    nearer = refl;
  }

  Owned-Moves : (o : Owner) → s.owner ≡ o → o ≢ nobody → Owned o s q → Moves (owner_left o s) s
  Owned-Moves nobody has some_one h = absurd (some_one refl)
  Owned-Moves (handler i) has some_one h = handler-Moves i (s.pcs i) has refl h
  Owned-Moves vm has some_one h = vm-Moves s.vm_pc has refl h

pc_left-le : (p : Pc) → pc_left p ≤ 3
pc_left-le asleep = omega arith
pc_left-le (entered t o) = omega arith
pc_left-le (locked t o) = omega arith
pc_left-le (counted t o) = omega arith
pc_left-le (queued t o) = omega arith
pc_left-le (released t) = omega arith

vm_left-le : (p : VmPc) → vm_left p ≤ 3
vm_left-le running = omega arith
vm_left-le asks = omega arith
vm_left-le holds = omega arith
vm_left-le (dequeued r) = omega arith
vm_left-le (took r) = omega arith
vm_left-le (returned r) = omega arith

owner_left-le : (o : Owner) (s : System) → owner_left o s ≤ 3
owner_left-le nobody s = omega arith
owner_left-le (handler i) s = pc_left-le (s.pcs i)
owner_left-le vm s = vm_left-le s.vm_pc

-- Whatever the order of the steps, the owner of the mutex is at most three steps away from its
-- unlock, and while there is an owner a step can be taken, which does not fail and leads one nearer.
pub owner-Moves :
    {es : List Event} {s : System} → Reach es s → s.owner ≢ nobody → (left s ≤ 3) × Moves (left s) s
owner-Moves {es = es} {s = s} r some_one =
    (owner_left-le s.owner s, Owned-Moves (replay es) s s.owner refl some_one (Reach-Inv r).owned)
