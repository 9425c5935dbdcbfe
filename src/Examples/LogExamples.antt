-- ===== src/Examples/LogExamples.antt =====
-- The theorems on excimer_log.c at a small call stack: a function, called through an internal
-- function by the main script.
use mediawiki_php_excimer.Prelude.{
  ℕ, ◌+◌, ◌%◌, ◌^◌, ◌≡◌, refl, true, false, none, some, List, [], ◌∷◌, ◌++◌, arith, length, map,
  ◌≤◌, ◌<◌, ap, get_elem?,
}
use mediawiki_php_excimer.Prelude.Int.{pos}
use mediawiki_php_excimer.Bytes.{Bytes}
use mediawiki_php_excimer.Run.{ok}
use mediawiki_php_excimer.Zend.Assoc.{assoc}
use mediawiki_php_excimer.Log.{Frame, Entry, Log, init}
use mediawiki_php_excimer.Log.Key.{codes, frame_key_injective}
use mediawiki_php_excimer.Log.Sample.{UserFunction, internal, user, Call, add, push_entry}
use mediawiki_php_excimer.Log.Valid.{Extends-refl, Extends-Grows}
use mediawiki_php_excimer.Log.Depth.{recorded}
use mediawiki_php_excimer.Log.Recorded.{Lines}
use mediawiki_php_excimer.Log.Add.{entry, init-IsValid, Added, add-Added, add_again}
use mediawiki_php_excimer.Log.Trace.{Zval, frame_to_array, trace_to_array}
use mediawiki_php_excimer.Log.Walk.{ShowsAll, Walks, Walks-total}
use mediawiki_php_excimer.Log.Object.{
  LogObject, get_iterator, iterator_rewind, offset_exists, offset_get, get_event_count, get_trace,
}
use mediawiki_php_excimer.Log.Iteration.{visits, foreach, foreach-visits, offset_get-readable}
use mediawiki_php_excimer.Log.Roundtrip.{trace_to_array-add}
use mediawiki_php_excimer.Log.Collapsed.{collapsed_lines, format_collapsed, concat_lines}
use mediawiki_php_excimer.Log.Collapsed.Counts.{weight, weight_of, events_of, Keys}
use mediawiki_php_excimer.Log.Collapsed.Lines.{IsLine, reads, leads_to, format_collapsed-sum}

abbrev pub main : UserFunction
main = record {
  filename = codes "main.php";
  scope = none;
  function_name = none;
  is_closure = false;
  line_start = 1;
}

abbrev pub visitor : UserFunction
visitor = record {
  filename = codes "lib.php";
  scope = some (some (codes "Tree"));
  function_name = some (codes "visit");
  is_closure = true;
  line_start = 20;
}

abbrev pub stack : List Call
stack =
    record { func = some (user visitor); lineno = 22 }
    ∷ record { func = some internal; lineno = 0 }
    ∷ record { func = some (user main); lineno = 5 }
    ∷ []

-- A log with a depth limit of 1, which cuts the main script off.
abbrev pub memory : Log assoc
memory = record {
  entries = [];
  frames = [];
  reverse_frames = [];
  max_depth = pos 1;
  epoch = 0;
  period = 0;
  event_count = 9;
}

abbrev pub empty : Log assoc
empty = init memory

pub lines : Lines stack
lines = (omega arith, (omega arith, (omega arith, tt)))

pub room : length empty.frames + length stack ≤ 2 ^ 32
unfolding init
room = omega arith

add-Added_example :
    (log' : Log assoc) × (add empty stack 2 7 ≡ ok log') × Added empty stack 2 7 log'
add-Added_example = add-Added empty stack 2 7 (init-IsValid memory) lines room

-- The log with one sample.
abbrev pub sampled :
    (log' : Log assoc) × (add empty stack 2 7 ≡ ok log') × Added empty stack 2 7 log'
sampled = add-Added empty stack 2 7 (init-IsValid memory) lines room

sampled-length : length sampled.0.entries ≡ 1
unfolding init
sampled-length = ap (λ (es : List Entry). length es) sampled.2.sample

sampled-short : length sampled.0.entries < 9
sampled-short = let n = sampled-length in omega arith

sampled-positive : 0 < length sampled.0.entries
sampled-positive = let n = sampled-length in omega arith

abbrev object : LogObject assoc
object = record { log = sampled.0; z_current = none; iter_entry_index = 0 }

add_again_example :
    (i : ℕ) × (sampled.0.entries ≡ empty.entries ++ entry i 2 7 ∷ [])
    × (add sampled.0 stack 3 8 ≡ ok (push_entry sampled.0 i 3 8))
add_again_example =
    add_again empty stack 2 7 3 8 sampled.0 sampled.0 (init-IsValid memory) lines sampled.1
      (Extends-Grows (Extends-refl sampled.0))

trace_to_array-add_example :
    (log' : Log assoc) × (i : ℕ) × (fs : List Frame) × (add empty stack 2 7 ≡ ok log')
    × (log'.entries ≡ empty.entries ++ entry i 2 7 ∷ [])
    × (trace_to_array log' (pos i) ≡ ok (map frame_to_array fs))
    × ShowsAll fs (recorded empty.max_depth stack)
trace_to_array-add_example = trace_to_array-add empty stack 2 7 (init-IsValid memory) lines room

Walks-total_example : (fs : List Frame) × Walks sampled.0 sampled.2.index fs
Walks-total_example = Walks-total sampled.0 sampled.2.index sampled.2.valid sampled.2.inside

format_collapsed-sum_example :
    (table : assoc.Table ℕ) × (collapsed_lines sampled.0 ≡ ok table)
    × (format_collapsed sampled.0 ≡ ok (concat_lines [] (assoc.items table)))
    × ((text : Bytes)
        → weight_of (reads text) (assoc.items table) % 2 ^ 64
          ≡ events_of (leads_to sampled.0 text) sampled.0.entries % 2 ^ 64)
    × (weight (assoc.items table) % 2 ^ 64 ≡ sampled.0.event_count)
    × Keys IsLine (assoc.items table)
format_collapsed-sum_example = format_collapsed-sum sampled.0 sampled.2.valid

frame_key_injective_example : (codes "a.php" ≡ codes "a.php") × (Path ℕ 12 12) × (Path ℕ 3 3)
frame_key_injective_example =
    frame_key_injective (codes "a.php") (codes "a.php") 12 12 3 3 (omega arith) (omega arith)
      (omega arith) (omega arith) refl

foreach-visits_example :
    (foreach 9 sampled.0 get_iterator ≡ ok (visits 0 (length sampled.0.entries)))
    × (foreach 9 sampled.0 (iterator_rewind get_iterator)
        ≡ ok (visits 0 (length sampled.0.entries)))
foreach-visits_example = foreach-visits 9 sampled.0 get_iterator sampled-short

offset_get-readable_example :
    (offset_exists sampled.0 (pos 0) ≡ true)
    × (offset_get sampled.0 (pos 0) ≡ some 0)
    × ((e : Entry) × (get_elem? sampled.0.entries 0 ≡ some e)
        × (get_event_count sampled.0 0 ≡ ok e.event_count)
        × ((trace : List (assoc.Table Zval)) × (get_trace sampled.0 0 ≡ ok trace)))
offset_get-readable_example = offset_get-readable sampled.0 0 sampled.2.valid sampled-positive
