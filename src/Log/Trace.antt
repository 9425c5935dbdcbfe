-- ===== src/Log/Trace.antt =====
-- The backtrace loops of excimer_log.c: excimer_log_trace_to_array with excimer_log_frame_to_array,
-- excimer_log_count_frames, and the loop of excimer_log_format_collapsed that collects the frame
-- pointers. Each is given the size of the frame array as fuel; the callers of a frame stand before
-- it in a valid log, so no index is met twice.
use mediawiki_php_excimer.Prelude.{
  ℕ, zero, suc, ◌+◌, ◌%◌, ◌^◌, Option, none, some, List, [], ◌∷◌, ◌==◌, length, get_elem?,
  if◌then◌else◌,
}
use mediawiki_php_excimer.Prelude.Int.{ℤ, pos}
use mediawiki_php_excimer.Bytes.{Bytes}
use mediawiki_php_excimer.Run.{Run, ok, out_of_fuel, ◌>>=◌}
use mediawiki_php_excimer.Zend.{HashApi, str}
use mediawiki_php_excimer.Log.{Frame, Log, get_frame, safe_uint32}
use mediawiki_php_excimer.Log.Key.{codes}
use mediawiki_php_excimer.Log.Name.{deref}

-- The values that are put into PHP arrays.
pub data Zval : Type 0 where
  long : ℕ → Zval
  string : Bytes → Zval

module _ ⦃Z : HashApi⦄ where
  unfoldable pub add_file : Z.Table Zval → Option Bytes → ℕ → Z.Table Zval
  add_file ht none lineno = ht
  add_file ht (some filename) lineno =
      Z.add (Z.add ht (str (codes "file")) (string filename)) (str (codes "line")) (long lineno)

  unfoldable pub add_string : Z.Table Zval → Bytes → Option Bytes → Z.Table Zval
  add_string ht key none = ht
  add_string ht key (some s) = Z.add ht (str key) (string s)

  unfoldable pub add_closure : Z.Table Zval → ℕ → Z.Table Zval
  add_closure ht zero = ht
  add_closure ht (suc n) = Z.add ht (str (codes "closure_line")) (long (suc n))

  unfoldable pub frame_to_array : Frame → Z.Table Zval
  unfolding add_file add_string add_closure
  frame_to_array frame =
      let file = add_file (Z.new Zval) frame.filename frame.lineno in
      let class = add_string file (codes "class") frame.class_name in
      let function = add_string class (codes "function") frame.function_name in
      add_closure function frame.closure_line

  -- The arrays of the frames from `frame_index` out to the outermost.
  unfoldable pub trace_loop : ℕ → Log Z → ℕ → Run (List (Z.Table Zval))
  trace_loop zero log frame_index = out_of_fuel
  trace_loop (suc fuel) log frame_index =
      let rest = (do
        frame ← deref (get_frame log (pos frame_index))
        outer ← trace_loop fuel log frame.prev_index
        ok (frame_to_array frame ∷ outer)) in
      if frame_index == 0 then ok [] else rest

  unfoldable pub trace_to_array : Log Z → ℤ → Run (List (Z.Table Zval))
  unfolding trace_loop
  trace_to_array log l_frame_index = do
    frame_index ← safe_uint32 l_frame_index
    trace_loop (suc (length log.frames)) log frame_index

  -- This loop indexes the array without `get_frame`.
  unfoldable pub count_loop : ℕ → Log Z → ℕ → ℕ → Run ℕ
  count_loop zero log frame_index n = out_of_fuel
  count_loop (suc fuel) log frame_index n =
      let rest = (do
        frame ← deref (get_elem? log.frames frame_index)
        count_loop fuel log frame.prev_index ((n + 1) % 2 ^ 32)) in
      if frame_index == 0 then ok n else rest

  unfoldable pub count_frames : Log Z → ℕ → Run ℕ
  unfolding count_loop
  count_frames log frame_index = count_loop (suc (length log.frames)) log frame_index 0

  -- `frame_ptrs`, the innermost frame first.
  unfoldable pub collect_loop : ℕ → Log Z → ℕ → Run (List Frame)
  collect_loop zero log frame_index = out_of_fuel
  collect_loop (suc fuel) log frame_index =
      let rest = (do
        frame ← deref (get_frame log (pos frame_index))
        outer ← collect_loop fuel log frame.prev_index
        ok (frame ∷ outer)) in
      if frame_index == 0 then ok [] else rest

  unfoldable pub collect_frames : Log Z → ℕ → Run (List Frame)
  unfolding collect_loop
  collect_frames log frame_index = collect_loop (suc (length log.frames)) log frame_index
