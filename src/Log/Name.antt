-- ===== src/Log/Name.antt =====
-- The printed names of frames: excimer_log_append_no_spaces, excimer_log_append_frame_name and
-- excimer_log_get_speedscope_frame_key of excimer_log.c. A `smart_str` is the list of its bytes.
-- A NULL file name is read as a fault.
pub mod Plain
use mediawiki_php_excimer.Prelude.{
  ℕ, zero, suc, ◌≡◌, ◌≢◌, Bool, ◌||◌, Option, none, some, List, [], ◌∷◌, ◌++◌, arith, ◌==◌, map,
  if◌then◌else◌,
}
use mediawiki_php_excimer.Bytes.{Bytes, format_int}
use mediawiki_php_excimer.Run.{Run, ok, fault, ◌>>=◌}
use mediawiki_php_excimer.Log.{Frame}
use mediawiki_php_excimer.Log.Key.{codes}

pub no_space : ℕ → ℕ
no_space c = if c == b' ' || c == 0 then b'_' else c

unfoldable pub append_no_spaces : Bytes → Bytes → Bytes
unfolding no_space
append_no_spaces dest src = dest ++ map no_space src

-- A pointer that is read: NULL is a fault.
abbrev pub deref {ℓ} : {A : Type ℓ} → Option A → Run A
deref none = fault
deref (some a) = ok a

class_prefix : Bytes → Option Bytes → Bytes
class_prefix ss none = ss
class_prefix ss (some class_name) = append_no_spaces ss class_name ++ codes "::"

-- The name of what is not a closure: file-scope code goes by the file.
function_part : Bytes → Frame → Option Bytes → Run Bytes
unfolding class_prefix
function_part ss frame none = do filename ← deref frame.filename; ok (append_no_spaces ss filename)
function_part ss frame (some function_name) =
    ok (append_no_spaces (class_prefix ss frame.class_name) function_name)

-- A closure goes by the place of its definition.
closure_part : Bytes → Frame → Run Bytes
closure_part ss frame = do
  filename ← deref frame.filename
  ok (
      append_no_spaces (ss ++ codes "{closure:") filename
      ++ (codes "(" ++ (format_int frame.closure_line ++ codes ")}")))

unfoldable pub append_frame_name : Bytes → Frame → Run Bytes
unfolding function_part closure_part
append_frame_name ss frame =
    if frame.closure_line == 0
    then function_part ss frame frame.function_name
    else closure_part ss frame

unfoldable pub get_speedscope_frame_key : Frame → Run Bytes
unfolding append_frame_name
get_speedscope_frame_key frame = do
  ss ← append_frame_name [] frame
  filename ← deref frame.filename
  ok (ss ++ (0 ∷ filename))
