-- ===== src/Examples/ProfilerExamples.antt =====
-- The theorem on the timer event of excimer.c at a profiler that hands over every sample.
use mediawiki_php_excimer.Prelude.{
  suc, ◌≡◌, ◌≤◌, ◌%◌, ◌^◌, arith, none, refl, false, List, [], ◌∷◌, length, leb, if◌then◌else◌,
}
use mediawiki_php_excimer.Prelude.Int.{pos}
use mediawiki_php_excimer.Run.{ok}
use mediawiki_php_excimer.Timespec.{Timespec, timespec_to_ns}
use mediawiki_php_excimer.Zend.Assoc.{assoc}
use mediawiki_php_excimer.Log.{Log, init}
use mediawiki_php_excimer.Log.Valid.{IsValid}
use mediawiki_php_excimer.Log.Add.{Added, init-IsValid}
use mediawiki_php_excimer.Profiler.{Profiler, callable, rotated, event, dtor}
use mediawiki_php_excimer.Profiler.Event.{event-delivers}
use mediawiki_php_excimer.Profiler.Ticks.{Tick, calls, delivered, run_events}
use mediawiki_php_excimer.Profiler.Delivered.{all_delivered}
use mediawiki_php_excimer.Profiler.Tick.{report_all, reported, profiler_callback, interrupt-Added}
use mediawiki_php_excimer.Timer.{PendingList}
use mediawiki_php_excimer.Timer.Notify.{Implements}
use mediawiki_php_excimer.Timer.Interrupt.{interrupt}
use mediawiki_php_excimer.Timer.Interleaving.{fresh, fresh-Implements}
use mediawiki_php_excimer.Examples.LogExamples.{stack, memory, empty, lines, room}
use mediawiki_php_excimer.Examples.HandlerExamples.{signals}
use mediawiki_php_excimer.Examples.LifeExamples.{calm, one_timer}

abbrev pub now : Timespec
now = record { tv_sec = 8; tv_nsec = 5 }

abbrev pub profiler : Profiler assoc
profiler = record {
  period = now;
  initial = now;
  event_type = 0;
  log = empty;
  z_callback = callable;
  max_samples = pos 1;
  need_reinit = false;
  timer = 5;
}

-- The script keeps the logs that it is given.
abbrev pub keep : Log assoc → List (Log assoc) → List (Log assoc)
keep log logs = log ∷ logs

event-delivers_example :
    (log : Log assoc) × (p' : Profiler assoc) × Added empty stack 2 (timespec_to_ns now) log
    × (event keep memory 2 stack now profiler one_timer []
        ≡ ok (p', one_timer, if leb (suc 0) (length log.entries) then keep log [] else []))
    × (p' ≡ record profiler {
      log = if leb (suc 0) (length log.entries) then rotated memory log else log;
    })
    × IsValid p'.log
    × (length p'.log.entries ≤ 0)
    × (p'.log.max_depth ≡ empty.max_depth)
event-delivers_example =
    event-delivers keep memory 2 stack now profiler one_timer [] 0 (init-IsValid memory) lines room
      refl refl

interrupt-Added_example :
    (m1 : PendingList) × (m2 : PendingList) × (m3 : PendingList) × (log : Log assoc)
    × (p' : Profiler assoc) × (report_all 5 (2 ∷ 0 ∷ []) fresh ≡ ok m1)
    × Added empty stack (reported (2 ∷ 0 ∷ []) % 2 ^ 64) (timespec_to_ns now) log
    × (interrupt (profiler_callback keep memory stack now) none 2 ((profiler, one_timer, []), m1)
        ≡ ok (
          (
            p',
            record one_timer { pending = m2 },
            if leb (suc 0) (length log.entries) then keep log [] else [],
          ),
          m3,
        ))
    × (p' ≡ record profiler {
      log = if leb (suc 0) (length log.entries) then rotated memory log else log;
    })
    × IsValid p'.log
    × Implements m3 []
interrupt-Added_example =
    interrupt-Added keep memory stack now profiler one_timer [] 0 2 (0 ∷ []) fresh (omega arith)
      fresh-Implements (init-IsValid memory) lines room refl refl

-- Two events, at a profiler that hands over each sample.
abbrev ticks : List Tick
ticks =
    record { event_count = 1; stack = stack; now = now }
    ∷ record { event_count = 3; stack = stack; now = now }
    ∷ []

all_delivered_example :
    (p' : Profiler assoc) × (logs' : List (Log assoc)) × (run_events memory ticks profiler one_timer
        []
      ≡ ok (p', one_timer, logs'))
    × (delivered (dtor keep memory p' one_timer logs').2
        ≡ (1, 8_000_000_005) ∷ (3, 8_000_000_005) ∷ [])
unfolding calls delivered init timespec_to_ns
all_delivered_example =
    all_delivered memory 0 ticks profiler one_timer [] (init-IsValid memory) (lines, (lines, tt))
      (omega arith) refl refl (omega arith)
