-- ===== src/Log/Strings.antt =====
-- The references to strings that excimer_log.c takes and drops: the same functions as in Sample, on
-- the log and the heap of strings, and excimer_log_destroy. The keys that the table holds are its own.
mod Frames
mod Record
pub mod Released
use mediawiki_php_excimer.Prelude.{ℕ, ◌+◌, Option, none, some, List, [], ◌∷◌, length, if◌then◌else◌}
use mediawiki_php_excimer.Prelude.Int.{ℤ}
use mediawiki_php_excimer.Bytes.{Bytes}
use mediawiki_php_excimer.Run.{Run, ok, ◌>>=◌}
use mediawiki_php_excimer.Zend.{HashApi, str}
use mediawiki_php_excimer.Zend.Strings.{StringApi}
use mediawiki_php_excimer.Log.{Frame, Log, init}
use mediawiki_php_excimer.Log.Key.{frame_key, truncated_name}
use mediawiki_php_excimer.Log.Sample.{
  Call, internal, user, make_frame, marker_frame, append_frame, reuse_frame, is_too_deep,
  push_entry,
}

-- One call of excimer_log_add.
pub record Taken : Type 0 where
  pub stack : List Call
  pub event_count : ℕ
  pub timestamp : ℕ

module _ ⦃S : StringApi⦄ where
  -- Nothing is done for NULL.
  unfoldable pub addref_some : S.Heap → Option Bytes → S.Heap
  addref_some h none = h
  addref_some h (some s) = S.addref h s

  unfoldable pub create_some : S.Heap → Option Bytes → S.Heap
  create_some h none = h
  create_some h (some s) = S.create h s

  unfoldable pub delref_some : S.Heap → Option Bytes → Run S.Heap
  delref_some h none = ok h
  delref_some h (some s) = S.delref h s

  -- The references that a frame made from the VM state takes.
  unfoldable pub addref_frame : S.Heap → Frame → S.Heap
  addref_frame h frame =
      addref_some (addref_some (addref_some h frame.filename) frame.class_name) frame.function_name

  -- The strings made for the truncation marker.
  unfoldable pub create_frame : S.Heap → Frame → S.Heap
  create_frame h frame =
      create_some (create_some (create_some h frame.filename) frame.class_name) frame.function_name

  unfoldable pub delref_frame : S.Heap → Frame → Run S.Heap
  delref_frame h frame = do
    h1 ← delref_some h frame.filename
    h2 ← delref_some h1 frame.class_name
    delref_some h2 frame.function_name

  -- The loop of excimer_log_destroy over the frames.
  unfoldable pub delref_frames : List Frame → S.Heap → Run S.Heap
  delref_frames [] h = ok h
  delref_frames (frame ∷ frames) h = delref_frame h frame >>= delref_frames frames

module _ ⦃Z : HashApi⦄ ⦃S : StringApi⦄ where
  -- An index, the log and the heap.
  abbrev pub Outcome : Type 0
  Outcome = Run ((ℕ × Log Z) × S.Heap)

  -- The key is made, and dropped whether the frame is found or not; the references of the frame are
  -- dropped if it is found.
  unfoldable pub find_or_append_counting : Log Z → Bytes → Frame → S.Heap → Outcome
  find_or_append_counting log key frame h =
      let made = S.create (addref_frame h frame) key in
      elim (Z.find log.reverse_frames (str key)) [
        | some index ↦ do
          freed ← S.free made key
          dropped ← delref_frame freed frame
          r ← reuse_frame log index
          ok (r, dropped)
        | none ↦ do r ← append_frame log key frame; dropped ← S.delref made key; ok (r, dropped)
      ]

  unfoldable pub get_truncation_marker_counting : Log Z → S.Heap → Outcome
  get_truncation_marker_counting log h = elim (Z.find log.reverse_frames (str truncated_name)) [
    | some index ↦ do r ← reuse_frame log index; ok (r, h)
    | none ↦ do
      r ← append_frame log truncated_name marker_frame
      ok (r, create_frame h marker_frame)
  ]

  unfoldable pub add_call_counting : Call → (ℕ × Log Z) × S.Heap → Outcome
  add_call_counting call ((prev_index, log), h) = elim call.func [
    | none ↦ ok ((prev_index, log), h)
    | some internal ↦ ok ((prev_index, log), h)
    | some (user func) ↦
        find_or_append_counting log (frame_key func.filename call.lineno prev_index)
          (make_frame func call.lineno prev_index) h
  ]

  unfoldable pub caller_index_counting : Log Z → List Call → ℕ → S.Heap → Outcome → Outcome
  caller_index_counting log [] depth h outer = ok ((0, log), h)
  caller_index_counting log (call ∷ rest) depth h outer =
      if is_too_deep log.max_depth depth then get_truncation_marker_counting log h else outer

  unfoldable pub find_or_add_frame_counting : Log Z → List Call → ℕ → S.Heap → Outcome
  unfolding add_call_counting caller_index_counting
  find_or_add_frame_counting log [] depth h = ok ((0, log), h)
  find_or_add_frame_counting log (call ∷ rest) depth h =
      let outer = find_or_add_frame_counting log rest (depth + 1) h in
      caller_index_counting log rest depth h outer >>= add_call_counting call

  unfoldable pub add_counting : Log Z → Taken → S.Heap → Run (Log Z × S.Heap)
  add_counting log t h = do
    ((i, log'), h') ← find_or_add_frame_counting log t.stack 0 h
    ok (push_entry log' i t.event_count t.timestamp, h')

  unfoldable pub destroy : Log Z → S.Heap → Run S.Heap
  destroy log h = delref_frames log.frames h

  unfoldable pub add_all_counting : List Taken → Log Z → S.Heap → Run (Log Z × S.Heap)
  add_all_counting [] log h = ok (log, h)
  add_all_counting (t ∷ samples) log h =
      add_counting log t h >>= λ r. add_all_counting samples r.0 r.1

  -- The life of a log: initialised at the memory `log`, used, destroyed.
  unfoldable pub life : Log Z → List Taken → S.Heap → Run S.Heap
  life log samples h = do (log', h') ← add_all_counting samples (init log) h; destroy log' h'
