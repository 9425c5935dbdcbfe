-- ===== src/Examples/TimerExamples.antt =====
-- The theorems on excimer_timer.c and timerlib at two timers, 5 and 6.
use mediawiki_php_excimer.Prelude.{
  ◌+◌, ◌%◌, ◌^◌, ◌≡◌, ◌≢◌, refl, true, false, [], ◌∷◌, arith, ◌⊎◌, ◌==◌, if◌then◌else◌,
}
use mediawiki_php_excimer.Run.{ok}
use mediawiki_php_excimer.Timespec.{
  Timespec, billion, IsNormal, timespec_add, timespec_subtract, timespec_to_ns,
  timespec_to_ns-timespec_add, timespec_add-IsNormal, timespec_to_ns-timespec_subtract,
}
use mediawiki_php_excimer.Timer.{PendingList}
use mediawiki_php_excimer.Timer.Pending.{list_remove, pending_dequeue, handle}
use mediawiki_php_excimer.Timer.Ring.{mem}
use mediawiki_php_excimer.Timer.Distinct.{erase}
use mediawiki_php_excimer.Timer.Queue.{IsQueue}
use mediawiki_php_excimer.Timer.Fifo.{list_remove-IsQueue}
use mediawiki_php_excimer.Timer.Notify.{
  Pending, timers, Implements, notify, dequeue, handle-Implements, pending_dequeue-Implements,
}
use mediawiki_php_excimer.Timer.Interleaving.{fresh, fresh-Implements}

-- Timer 5 is at the front, 6 behind it, with 1 and 2 events.
abbrev pub two_pending : PendingList
two_pending = record {
  next = λ p. if p == 5 then 6 else if p == 6 then 5 else 0;
  prev = λ p. if p == 5 then 6 else if p == 6 then 5 else 0;
  event_count = λ p. if p == 5 then 1 else if p == 6 then 2 else 0;
  head = 5;
  vm_interrupt = false;
}

abbrev pub pending : Pending
pending = (5, 1) ∷ (6, 2) ∷ []

two_pending-IsQueue : IsQueue two_pending (5 ∷ 6 ∷ [])
unfolding mem
two_pending-IsQueue = record {
  ring = (refl, (refl, refl, (refl, refl)));
  distinct = (refl, (refl, tt));
  nonnull = refl;
  free = λ p out. ground arith;
}

pub two_pending-Implements : Implements two_pending pending
unfolding mem timers
two_pending-Implements = record {
  queue = two_pending-IsQueue;
  counts = (refl, (refl, tt));
  idle = λ p out. ground arith;
}

list_remove-IsQueue_example :
    (m' : PendingList) × (list_remove 6 two_pending ≡ ok m')
    × IsQueue m' (erase 6 (5 ∷ 6 ∷ []))
    × (m'.event_count ≡ two_pending.event_count)
list_remove-IsQueue_example =
    list_remove-IsQueue two_pending (5 ∷ 6 ∷ []) 6 (omega arith) two_pending-IsQueue

handle-Implements_example :
    (m' : PendingList) × (handle 6 3 two_pending ≡ ok m')
    × Implements m' (notify 6 (3 + 1) pending)
    × (m'.vm_interrupt ≡ true)
handle-Implements_example =
    handle-Implements two_pending pending 6 3 (omega arith) two_pending-Implements

pending_dequeue-Implements_example :
    (m' : PendingList) × (pending_dequeue two_pending ≡ ok ((dequeue pending).0, m'))
    × Implements m' (dequeue pending).1
pending_dequeue-Implements_example =
    pending_dequeue-Implements two_pending pending two_pending-Implements

abbrev notified :
    (m' : PendingList) × (handle 5 2 fresh ≡ ok m')
    × Implements m' (notify 5 (2 + 1) [])
    × (m'.vm_interrupt ≡ true)
notified = handle-Implements fresh [] 5 2 (omega arith) fresh-Implements

abbrev long : Timespec
long = record { tv_sec = 3; tv_nsec = 600000000 }

abbrev short : Timespec
short = record { tv_sec = 1; tv_nsec = 700000000 }

long-IsNormal : IsNormal long
long-IsNormal = record { sec = omega arith; nsec = omega arith }

short-IsNormal : IsNormal short
short-IsNormal = record { sec = omega arith; nsec = omega arith }

timespec_to_ns-timespec_add_example :
    timespec_to_ns (timespec_add long short) ≡ (timespec_to_ns long + timespec_to_ns short) % 2 ^ 64
timespec_to_ns-timespec_add_example =
    timespec_to_ns-timespec_add long short long-IsNormal short-IsNormal

timespec_add-IsNormal_example :
    (IsNormal (timespec_add long short) × (long.tv_nsec + short.tv_nsec ≢ billion))
    ⊎ (((timespec_add long short).tv_nsec ≡ billion) × (long.tv_nsec + short.tv_nsec ≡ billion))
timespec_add-IsNormal_example = timespec_add-IsNormal long short long-IsNormal short-IsNormal

timespec_to_ns-timespec_subtract_example :
    IsNormal (timespec_subtract long short)
    × ((timespec_to_ns (timespec_subtract long short) + timespec_to_ns short) % 2 ^ 64
        ≡ timespec_to_ns long)
timespec_to_ns-timespec_subtract_example =
    timespec_to_ns-timespec_subtract long short long-IsNormal short-IsNormal
