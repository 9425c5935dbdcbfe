-- ===== src/Timer/Mutex.antt =====
-- excimer_mutex.c, and excimer_timer_handle and excimer_timer_interrupt of excimer_timer.c taken
-- apart into the steps between which another thread can run. Any number of handler threads run
-- beside the thread of the virtual machine. A mutex that is held is not given to another thread.
pub mod Section
pub mod Moves
pub mod Atomic
pub mod Wakeup
pub mod Progress
use mediawiki_php_excimer.Prelude.{
  ℕ, zero, suc, ◌+◌, ◌≡◌, ◌≢◌, refl, Bool, true, false, Option, none, some, List, [], ◌∷◌, ◌++◌,
  ◌==◌, if◌then◌else◌,
}
use mediawiki_php_excimer.Run.{ok}
use mediawiki_php_excimer.Timer.{Ptr, null, update, PendingList}
use mediawiki_php_excimer.Timer.Pending.{add_events, list_enqueue, list_dequeue, take_count}
use mediawiki_php_excimer.Timer.Interleaving.{Event, expires, calls, fresh}

-- How a wrapper of a pthread_mutex function ends. `aborts` is `abort()`.
pub data MutexResult : Type 0 where
  proceeds fatal_error aborts : MutexResult

-- The wrappers, by the result of the function that they call.
unfoldable pub mutex_init : ℕ → MutexResult
mutex_init result = if result == 0 then proceeds else fatal_error

unfoldable pub mutex_lock : ℕ → MutexResult
mutex_lock result = if result == 0 then proceeds else aborts

unfoldable pub mutex_unlock : ℕ → MutexResult
mutex_unlock result = if result == 0 then proceeds else aborts

unfoldable pub mutex_destroy : ℕ → MutexResult
mutex_destroy result = if result == 0 then proceeds else fatal_error

pub data Owner : Type 0 where
  nobody : Owner
  handler : ℕ → Owner
  vm : Owner

-- Where a handler thread stands in excimer_timer_handle, for a timer and an overrun count.
pub data Pc : Type 0 where
  asleep : Pc
  entered : Ptr → ℕ → Pc  -- before the lock
  locked : Ptr → ℕ → Pc
  counted : Ptr → ℕ → Pc  -- the events are added
  queued : Ptr → ℕ → Pc  -- before the unlock
  released : Ptr → Pc  -- before the store to vm_interrupt

-- Where the thread of the virtual machine stands in excimer_timer_interrupt.
pub data VmPc : Type 0 where
  running : VmPc  -- PHP code, also that of a callback
  asks : VmPc  -- the head of the loop, before the lock
  holds : VmPc
  dequeued : Option Ptr → VmPc
  took : Option (Ptr × ℕ) → VmPc  -- before the unlock
  returned : Option (Ptr × ℕ) → VmPc  -- excimer_timer_pending_dequeue has returned

-- `depth` is the number of the loops that wait for their callback to return: a callback can itself be
-- interrupted. `vm_interrupt` stands for the field of `mem`, which is not used here.
pub record System : Type 0 where
  pub mem : PendingList
  pub vm_interrupt : Bool
  pub owner : Owner
  pub pcs : ℕ → Pc
  pub vm_pc : VmPc
  pub depth : ℕ

-- The thread `i` goes on to `p`.
abbrev pub goto : System → ℕ → Pc → System
goto s i p = record s { pcs = update s.pcs i p }

-- One step of one thread, with the events that it makes: an expiry counts, and a callback is due,
-- from the unlock on. The timer that timerlib hands back is never NULL.
pub data Step (s : System) : List Event → System → Type 0 where
  enter : (i : ℕ) (t : Ptr) (o : ℕ) → s.pcs i ≡ asleep → Step s [] (goto s i (entered t o))
  lock :
      (i : ℕ) (t : Ptr) (o result : ℕ)
      → s.pcs i ≡ entered t o
      → t ≢ null
      → s.owner ≡ nobody
      → mutex_lock result ≡ proceeds
      → Step s [] (record (goto s i (locked t o)) { owner = handler i })
  count :
      (i : ℕ) (t : Ptr) (o : ℕ)
      → s.pcs i ≡ locked t o
      → Step s [] (record (goto s i (counted t o)) { mem = add_events t o s.mem })
  enqueue :
      (i : ℕ) (t : Ptr) (o : ℕ) (m : PendingList)
      → s.pcs i ≡ counted t o
      → list_enqueue t s.mem ≡ ok m
      → Step s [] (record (goto s i (queued t o)) { mem = m })
  unlock :
      (i : ℕ) (t : Ptr) (o result : ℕ)
      → s.pcs i ≡ queued t o
      → mutex_unlock result ≡ proceeds
      → Step s (expires t o ∷ []) (record (goto s i (released t)) { owner = nobody })
  store :
      (i : ℕ) (t : Ptr)
      → s.pcs i ≡ released t
      → Step s [] (record (goto s i asleep) { vm_interrupt = true })
  -- The virtual machine sees the flag, clears it and calls the interrupt function.
  vm_interrupted :
      s.vm_pc ≡ running
      → s.vm_interrupt ≡ true
      → Step s [] (record s { vm_interrupt = false; vm_pc = asks })
  vm_lock :
      (result : ℕ)
      → s.vm_pc ≡ asks
      → s.owner ≡ nobody
      → mutex_lock result ≡ proceeds
      → Step s [] (record s { owner = vm; vm_pc = holds })
  vm_dequeue :
      (r : Option Ptr) (m : PendingList)
      → s.vm_pc ≡ holds
      → list_dequeue s.mem ≡ ok (r, m)
      → Step s [] (record s { mem = m; vm_pc = dequeued r })
  vm_take :
      (r : Option Ptr) (taken : Option (Ptr × ℕ)) (m : PendingList)
      → s.vm_pc ≡ dequeued r
      → take_count (r, s.mem) ≡ ok (taken, m)
      → Step s [] (record s { mem = m; vm_pc = took taken })
  vm_unlock :
      (t : Ptr) (c result : ℕ)
      → s.vm_pc ≡ took (some (t, c))
      → mutex_unlock result ≡ proceeds
      → Step s (calls t c ∷ []) (record s { owner = nobody; vm_pc = returned (some (t, c)) })
  vm_unlock_empty :
      (result : ℕ)
      → s.vm_pc ≡ took none
      → mutex_unlock result ≡ proceeds
      → Step s [] (record s { owner = nobody; vm_pc = returned none })
  vm_call :
      (t : Ptr) (c : ℕ)
      → s.vm_pc ≡ returned (some (t, c))
      → Step s [] (record s { vm_pc = running; depth = s.depth + 1 })
  -- The callback returns.
  vm_return :
      (d : ℕ)
      → s.vm_pc ≡ running
      → s.depth ≡ suc d
      → Step s [] (record s { vm_pc = asks; depth = d })
  -- The interrupt function returns.
  vm_done : s.vm_pc ≡ returned none → Step s [] (record s { vm_pc = running })

-- No thread is in a function of the extension.
abbrev pub initial : System
initial = record {
  mem = fresh;
  vm_interrupt = false;
  owner = nobody;
  pcs = λ i. asleep;
  vm_pc = running;
  depth = 0;
}

-- The states that steps of any threads, in any order, lead to, with the events, the last one first.
pub data Reach : List Event → System → Type 0 where
  start : Reach [] initial
  later : {es new : List Event} {s t : System} → Reach es s → Step s new t → Reach (new ++ es) t
