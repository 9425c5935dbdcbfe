-- ===== src/Log/Methods.antt =====
-- The methods of ExcimerLog that hand over to excimer_log.c, and those that refuse. A refused change is
-- a warning and leaves the log alone; the constructors end the request, since only PHP makes these
-- objects.
use mediawiki_php_excimer.Prelude.{ℕ, ◌%◌, ◌^◌, ◌≡◌, []}
use mediawiki_php_excimer.Bytes.{Bytes}
use mediawiki_php_excimer.Run.{Run, ok, fatal}
use mediawiki_php_excimer.Zend.{HashApi}
use mediawiki_php_excimer.Log.{Log}
use mediawiki_php_excimer.Log.Valid.{IsValid, total}
use mediawiki_php_excimer.Log.Trace.{Zval}
use mediawiki_php_excimer.Log.Collapsed.{format_collapsed, concat_lines}
use mediawiki_php_excimer.Log.Collapsed.Lines.{format_collapsed-sum}
use mediawiki_php_excimer.Log.Speedscope.{SpeedscopeData, get_speedscope_data}
use mediawiki_php_excimer.Log.Speedscope.Data.{get_speedscope_data-Profiled}
use mediawiki_php_excimer.Log.Aggregate.{aggr_by_func}
use mediawiki_php_excimer.Log.Aggregate.Traces.{aggr_by_func-Counts}

pub data Refusal : Type 0 where
  cannot_be_modified : Refusal

module _ ⦃Z : HashApi⦄ where
  -- ExcimerLog::__construct and ExcimerLogEntry::__construct.
  unfoldable pub construct_log : Run (Log Z)
  construct_log = fatal

  unfoldable pub construct_entry : Run ℕ
  construct_entry = fatal

  unfoldable pub method_format_collapsed : Log Z → Run Bytes
  method_format_collapsed log = format_collapsed log

  unfoldable pub method_get_speedscope_data : Log Z → Run SpeedscopeData
  method_get_speedscope_data log = get_speedscope_data log

  unfoldable pub method_aggregate_by_function : Log Z → Run (Z.Table (Z.Table Zval))
  method_aggregate_by_function log = aggr_by_func log

  unfoldable pub method_get_event_count : Log Z → ℕ
  method_get_event_count log = log.event_count

  -- ExcimerLog::offsetSet and ExcimerLog::offsetUnset.
  unfoldable pub offset_set : Log Z → Refusal × Log Z
  offset_set log = (Refusal.cannot_be_modified, log)

  unfoldable pub offset_unset : Log Z → Refusal × Log Z
  offset_unset log = (Refusal.cannot_be_modified, log)

  -- On a valid log each report is made without a fault, and the event count is the sum of those of the
  -- entries, modulo 2^64.
  pub reports_made :
      (log : Log Z)
      → IsValid log
      → ((text : Bytes) × (method_format_collapsed log ≡ ok text))
        × ((data_ : SpeedscopeData) × (method_get_speedscope_data log ≡ ok data_))
        × ((table : Z.Table (Z.Table Zval)) × (method_aggregate_by_function log ≡ ok table))
        × (method_get_event_count log ≡ total log.entries % 2 ^ 64)
  unfolding method_format_collapsed method_get_speedscope_data method_aggregate_by_function
      method_get_event_count
  reports_made log v =
      let (lines, collated, formatted, each, sum, keys) = format_collapsed-sum log v in
      let (d, profiled, shown) = get_speedscope_data-Profiled log v in
      let (traces, traced, (table, counted, sums)) = aggr_by_func-Counts log v in
      ((concat_lines [] (Z.items lines), formatted), (d, profiled), (table, counted), v.counted)
