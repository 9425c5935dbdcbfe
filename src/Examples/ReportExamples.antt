-- ===== src/Examples/ReportExamples.antt =====
-- The theorems on the reports of excimer_log.c at a log with one sample.
use mediawiki_php_excimer.Prelude.{◌%◌, ◌^◌, ◌≡◌, ◌<◌, arith, List}
use mediawiki_php_excimer.Run.{ok}
use mediawiki_php_excimer.Zend.Assoc.{assoc}
use mediawiki_php_excimer.Log.Trace.{Zval}
use mediawiki_php_excimer.Log.Aggregate.{aggr_by_func}
use mediawiki_php_excimer.Log.Aggregate.Counts.{Counts}
use mediawiki_php_excimer.Log.Aggregate.Traces.{aggr_by_func-Counts}
use mediawiki_php_excimer.Log.Aggregate.Loop.{NamedTrace, Traced, events, is_on_top, is_among}
use mediawiki_php_excimer.Log.Speedscope.{SpeedscopeData, get_speedscope_data}
use mediawiki_php_excimer.Log.Speedscope.Data.{Profiled, get_speedscope_data-Profiled}
use mediawiki_php_excimer.Zend.{IsSorted}
use mediawiki_php_excimer.Log.{init}
use mediawiki_php_excimer.Log.Valid.{total}
use mediawiki_php_excimer.Log.Aggregate.Order.{descends, aggr_by_func-IsSorted}
use mediawiki_php_excimer.Examples.LogExamples.{sampled}

aggr_by_func-Counts_example :
    (traces : List NamedTrace) × Traced sampled.0.frames sampled.0.entries traces
    × ((t : assoc.Table (assoc.Table Zval)) × (aggr_by_func sampled.0 ≡ ok t)
        × Counts t
            (λ n. events (is_on_top n) traces % 2 ^ 64)
            (λ n. events (is_among n) traces % 2 ^ 64))
aggr_by_func-Counts_example = aggr_by_func-Counts sampled.0 sampled.2.valid

get_speedscope_data-Profiled_example :
    (d : SpeedscopeData) × (get_speedscope_data sampled.0 ≡ ok d) × Profiled sampled.0 d
get_speedscope_data-Profiled_example = get_speedscope_data-Profiled sampled.0 sampled.2.valid

sampled-total : total sampled.0.entries < 2 ^ 63
unfolding total init
sampled-total = rw sampled.2.sample (omega arith)

aggr_by_func-IsSorted_example :
    (t : assoc.Table (assoc.Table Zval)) × (aggr_by_func sampled.0 ≡ ok t)
    × IsSorted descends (assoc.items t)
aggr_by_func-IsSorted_example = aggr_by_func-IsSorted sampled.0 sampled.2.valid sampled-total
