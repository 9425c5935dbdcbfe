-- ===== src/Log/Roundtrip.antt =====
-- From excimer_log_add to excimer_log_trace_to_array: a sample can be read back.
use mediawiki_php_excimer.Prelude.{ℕ, ◌+◌, ◌^◌, ◌≤◌, ◌≡◌, List, [], ◌∷◌, ◌++◌, length, map}
use mediawiki_php_excimer.Prelude.Int.{pos}
use mediawiki_php_excimer.Run.{ok}
use mediawiki_php_excimer.Zend.{HashApi}
use mediawiki_php_excimer.Log.{Frame, Log}
use mediawiki_php_excimer.Log.Sample.{Call, add}
use mediawiki_php_excimer.Log.Valid.{IsValid}
use mediawiki_php_excimer.Log.Depth.{recorded}
use mediawiki_php_excimer.Log.Recorded.{Lines}
use mediawiki_php_excimer.Log.Add.{entry, add-Added}
use mediawiki_php_excimer.Log.Trace.{frame_to_array, trace_to_array}
use mediawiki_php_excimer.Log.Walk.{
  ShowsAll, visited, Visits-visited, ShowsAll-visited, Visits-unique, Walks-total,
}

module _ ⦃Z : HashApi⦄ where
  -- A sample that is added to a valid log with room for its frames can be read back: the trace of
  -- the new entry is the arrays of frames that show, in turn, the part of the stack that the depth
  -- limit lets through.
  pub trace_to_array-add :
      (log : Log Z) (stack : List Call) (event_count timestamp : ℕ)
      → IsValid log
      → Lines stack
      → length log.frames + length stack ≤ 2 ^ 32
      → (log' : Log Z) × (i : ℕ) × (fs : List Frame) × (add log stack event_count timestamp
          ≡ ok log')
        × (log'.entries ≡ log.entries ++ entry i event_count timestamp ∷ [])
        × (trace_to_array log' (pos i) ≡ ok (map frame_to_array fs))
        × ShowsAll fs (recorded log.max_depth stack)
  trace_to_array-add log stack event_count timestamp v lines room =
      let (log', succeeds, added) = add-Added log stack event_count timestamp v lines room in
      let i = added.index in
      let places = recorded log.max_depth stack in
      let (gs, walks) = Walks-total log' i added.valid added.inside in
      let shown = visited log'.frames i places added.backtrace in
      let same : shown ≡ gs =
        Visits-unique log'.frames i shown gs (Visits-visited log'.frames i places added.backtrace)
          walks.visits in
      (
        log',
        i,
        shown,
        succeeds,
        added.sample,
        rw same walks.trace,
        ShowsAll-visited log'.frames i places added.backtrace,
      )
