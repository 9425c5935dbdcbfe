-- ===== src/Examples/OwnershipExamples.antt =====
-- A log with one entry, which only the script holds.
use mediawiki_php_excimer.Prelude.{ℕ, ◌≡◌, refl, false, none, some, [], ◌∷◌, arith}
use mediawiki_php_excimer.Run.{ok}
use mediawiki_php_excimer.Zend.Assoc.{assoc}
use mediawiki_php_excimer.Zend.Handles.{HandleCounts, handles}
use mediawiki_php_excimer.Timer.{update}
use mediawiki_php_excimer.Timer.Ring.{mem}
use mediawiki_php_excimer.Log.{Log}
use mediawiki_php_excimer.Log.Add.{entry}
use mediawiki_php_excimer.Log.Ownership.{current_method, foreach_loop, release_entry}
use mediawiki_php_excimer.Log.Ownership.Owned.{Owned}
use mediawiki_php_excimer.Log.Ownership.Foreach.{foreach_loop-Owned, current_method-Cycle}
use mediawiki_php_excimer.Examples.LogExamples.{memory}

abbrev sampled : Log assoc
sampled = record memory { entries = entry 0 1 10 ∷ [] }

abbrev script_only : ℕ → ℕ
script_only = update (λ k. 0) 0 1

abbrev heap : HandleCounts
heap = record { count = script_only; next = 1; unused = λ k le. ground arith }

heap-Owned : Owned 0 script_only [] heap
unfolding mem
heap-Owned = record {
  log_refs = refl;
  entry_refs = λ e other. refl;
  dead = λ e other out. ground arith;
  alive = λ e i. cc;
  distinct = tt;
  apart = refl;
}

foreach_loop-Owned_example :
    (h' : HandleCounts) × (foreach_loop sampled 0 2 heap ≡ ok (false, h'))
    × Owned 0 script_only [] h'
foreach_loop-Owned_example =
    foreach_loop-Owned sampled 0 script_only [] heap 2 heap-Owned (omega arith) (omega arith)

current_method-Cycle_example :
    (e : ℕ) × (h1 h2 h3 : HandleCounts) × (current_method sampled 0
        (record { z_current = none; index = 0 })
        heap
      ≡ (record { z_current = some e; index = 0 }, h1))
    × (release_entry 0 (some e) h1 ≡ ok (false, h2))
    × (handles.zval_ptr_dtor h2 0 ≡ ok (false, h3))
    × (h3.count 0 ≡ 1)
    × (h3.count e ≡ 1)
current_method-Cycle_example = current_method-Cycle sampled 0 heap 0 heap-Owned (omega arith)
