-- ===== src/Examples/InterruptExamples.antt =====
-- The theorems on the interrupt of the virtual machine at two pending timers, 5 and 6, whose profilers
-- hand over every sample.
use mediawiki_php_excimer.Prelude.{◌≡◌, refl, none, List, [], arith}
use mediawiki_php_excimer.Run.{ok}
use mediawiki_php_excimer.Zend.Assoc.{assoc}
use mediawiki_php_excimer.Timer.{PendingList}
use mediawiki_php_excimer.Timer.Notify.{Implements}
use mediawiki_php_excimer.Timer.Interrupt.{interrupt, call_old, Served, interrupt-Implements}
use mediawiki_php_excimer.Log.{Log, init}
use mediawiki_php_excimer.Log.Add.{init-IsValid}
use mediawiki_php_excimer.Profiler.Interrupts.{
  Profilers, profilers_callback, TakesSample, AllAble, profilers-serve, interrupt-Served,
}
use mediawiki_php_excimer.Examples.LogExamples.{stack, memory, lines}
use mediawiki_php_excimer.Examples.LifeExamples.{calm, one_timer}
use mediawiki_php_excimer.Examples.ProfilerExamples.{now, keep, profiler}
use mediawiki_php_excimer.Examples.TimerExamples.{two_pending, pending, two_pending-Implements}

abbrev both : Profilers {S = List (Log assoc)} keep memory stack now
both = (λ t. record profiler { timer = t }, one_timer, [])

both-Able : AllAble keep memory stack now 2 both
unfolding init
both-Able t = record {
  valid = init-IsValid memory;
  room = omega arith;
  n = 0;
  limit = refl;
  call = refl;
}

interrupt-Implements_example :
    (x' : Profilers keep memory stack now) × (m' : PendingList) × (interrupt
        (profilers_callback keep memory stack now)
        none
        3
        (both, two_pending)
      ≡ call_old (profilers_callback keep memory stack now) none (x', m'))
    × Served (TakesSample keep memory stack now) pending both x'
    × Implements m' []
interrupt-Implements_example =
    interrupt-Implements (profilers_callback keep memory stack now) (AllAble keep memory stack now)
      (TakesSample keep memory stack now) (profilers-serve keep memory stack now lines) none 3
      pending both two_pending two_pending-Implements both-Able (omega arith)

interrupt-Served_example :
    (x' : Profilers keep memory stack now) × (m' : PendingList) × (interrupt
        (profilers_callback keep memory stack now)
        none
        3
        (both, two_pending)
      ≡ ok (x', m'))
    × Served (TakesSample keep memory stack now) pending both x'
    × Implements m' []
interrupt-Served_example =
    interrupt-Served keep memory stack now 3 pending both two_pending lines two_pending-Implements
      both-Able (omega arith)
