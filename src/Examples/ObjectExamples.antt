-- ===== src/Examples/ObjectExamples.antt =====
-- The theorems on the objects of excimer.c that own a timer, at the thread with the timer 5.
use mediawiki_php_excimer.Prelude.{ℕ, [], ◌∷◌, arith, true}
use mediawiki_php_excimer.Zend.Assoc.{assoc}
use mediawiki_php_excimer.Timerlib.{no_time}
use mediawiki_php_excimer.Profiler.{callable, start_method}
use mediawiki_php_excimer.Profiler.Starts.{start_method-Starts}
use mediawiki_php_excimer.Profiler.Starts
use mediawiki_php_excimer.TimerObject.{TimerObject, method_start}
use mediawiki_php_excimer.TimerObject.Starts.{method_start-Starts}
use mediawiki_php_excimer.TimerObject.Starts as ObjectStarts
use mediawiki_php_excimer.Examples.LifeExamples.{
  calm, calm_reliable, one_timer, one_timer-Lives, second,
}
use mediawiki_php_excimer.Examples.ProfilerExamples.{profiler}

-- The event type was changed.
abbrev object : TimerObject
object = record {
  period = second;
  initial = no_time;
  event_type = 1;
  z_callback = callable;
  need_reinit = true;
  timer = 5;
}

method_start-Starts_example :
    (fuel : ℕ) × ObjectStarts.Starts object (5 ∷ []) (method_start fuel object one_timer)
method_start-Starts_example =
    method_start-Starts object one_timer (5 ∷ []) calm_reliable (omega arith) one_timer-Lives

start_method-Starts_example :
    (fuel : ℕ) × Starts.Starts profiler (5 ∷ []) (start_method fuel profiler one_timer)
start_method-Starts_example =
    start_method-Starts profiler one_timer (5 ∷ []) calm_reliable (omega arith) one_timer-Lives
