-- ===== src/Log/Sample.antt =====
-- Recording a sample: excimer_log_add, excimer_log_find_or_add_frame and
-- excimer_log_get_truncation_marker of excimer_log.c.
use mediawiki_php_excimer.Prelude.{
  ℕ, zero, suc, ◌+◌, ◌%◌, ◌^◌, Bool, false, not, Option, none, some, List, [], ◌∷◌, ◌++◌, length,
  if◌then◌else◌,
}
use mediawiki_php_excimer.Prelude.Int.{ℤ, negsuc, pos, ltb_ℤ}
use mediawiki_php_excimer.Bytes.{Bytes}
use mediawiki_php_excimer.Run.{Run, ok, ◌>>=◌}
use mediawiki_php_excimer.Zend.{HashApi, str}
use mediawiki_php_excimer.Log.{Frame, Log, safe_uint32}
use mediawiki_php_excimer.Log.Key.{frame_key, truncated_name, fake_filename}

-- What the source reads of a user function's `zend_function`. A scope is a class entry, whose name
-- may be missing.
pub record UserFunction : Type 0 where
  pub filename : Bytes
  pub scope : Option (Option Bytes)
  pub function_name : Option Bytes
  pub is_closure : Bool
  pub line_start : ℕ

-- `execute_data->func`: `ZEND_USER_CODE` tells the two kinds apart.
pub data Function : Type 0 where
  internal : Function
  user : UserFunction → Function

-- A `zend_execute_data`; `execute_data` with its chain of `prev_execute_data` is a list of these,
-- the innermost call first.
pub record Call : Type 0 where
  pub func : Option Function
  pub lineno : ℕ

abbrev scope_name : Option (Option Bytes) → Option Bytes
scope_name none = none
scope_name (some name) = name

unfoldable pub make_frame : UserFunction → ℕ → ℕ → Frame
make_frame func lineno prev_index = record {
  filename = some func.filename;
  lineno = lineno;
  closure_line = if func.is_closure then func.line_start else 0;
  class_name = scope_name func.scope;
  function_name = func.function_name;
  prev_index = prev_index;
}

abbrev pub marker_frame : Frame
marker_frame = record {
  filename = some fake_filename;
  lineno = 1;
  closure_line = 0;
  class_name = none;
  function_name = some truncated_name;
  prev_index = 0;
}

-- `log->max_depth && depth >= log->max_depth`
unfoldable pub is_too_deep : ℤ → ℕ → Bool
is_too_deep (pos zero) depth = false
is_too_deep (pos (suc m)) depth = not (ltb_ℤ (pos depth) (pos (suc m)))
is_too_deep (negsuc m) depth = not (ltb_ℤ (pos depth) (negsuc m))

module _ ⦃Z : HashApi⦄ where
  -- Appends a frame to the array, and its index to the reverse table.
  unfoldable pub push_frame : Log Z → Bytes → Frame → Log Z
  push_frame log key frame = record log {
    reverse_frames = Z.add log.reverse_frames (str key) (pos (length log.frames));
    frames = log.frames ++ frame ∷ [];
  }

  -- The index of the new frame.
  unfoldable pub append_frame : Log Z → Bytes → Frame → Run (ℕ × Log Z)
  append_frame log key frame = do
    i ← safe_uint32 (pos (length log.frames))
    ok (i, push_frame log key frame)

  -- The index that the reverse table holds.
  unfoldable pub reuse_frame : Log Z → ℤ → Run (ℕ × Log Z)
  reuse_frame log index = do i ← safe_uint32 index; ok (i, log)

  unfoldable pub find_or_append : Log Z → Bytes → Frame → Run (ℕ × Log Z)
  find_or_append log key frame = elim (Z.find log.reverse_frames (str key)) [
    | some index ↦ reuse_frame log index
    | none ↦ append_frame log key frame
  ]

  unfoldable pub get_truncation_marker : Log Z → Run (ℕ × Log Z)
  get_truncation_marker log = find_or_append log truncated_name marker_frame

  -- The part of find_or_add_frame that follows the caller's index.
  unfoldable pub add_call : Call → ℕ × Log Z → Run (ℕ × Log Z)
  add_call call (prev_index, log) = elim call.func [
    | none ↦ ok (prev_index, log)
    | some internal ↦ ok (prev_index, log)
    | some (user func) ↦
        find_or_append log (frame_key func.filename call.lineno prev_index)
          (make_frame func call.lineno prev_index)
  ]

  -- The caller's index: `outer` is the call of find_or_add_frame on the rest of the stack.
  unfoldable pub caller_index : Log Z → List Call → ℕ → Run (ℕ × Log Z) → Run (ℕ × Log Z)
  caller_index log [] depth outer = ok (0, log)
  caller_index log (call ∷ rest) depth outer =
      if is_too_deep log.max_depth depth then get_truncation_marker log else outer

  unfoldable pub find_or_add_frame : Log Z → List Call → ℕ → Run (ℕ × Log Z)
  unfolding add_call caller_index
  find_or_add_frame log [] depth = ok (0, log)
  find_or_add_frame log (call ∷ rest) depth =
      let outer = find_or_add_frame log rest (depth + 1) in
      caller_index log rest depth outer >>= add_call call

  -- Appends an entry, and counts its events.
  unfoldable pub push_entry : Log Z → ℕ → ℕ → ℕ → Log Z
  push_entry log frame_index event_count timestamp = record log {
    entries =
        log.entries
        ++ record { frame_index = frame_index; event_count = event_count; timestamp = timestamp }
          ∷ [];
    event_count = (log.event_count + event_count) % 2 ^ 64;
  }

  unfoldable pub add : Log Z → List Call → ℕ → ℕ → Run (Log Z)
  add log execute_data event_count timestamp = do
    (frame_index, log') ← find_or_add_frame log execute_data 0
    ok (push_entry log' frame_index event_count timestamp)
