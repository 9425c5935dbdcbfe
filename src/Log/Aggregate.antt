-- ===== src/Log/Aggregate.antt =====
-- excimer_log_aggr_by_func of excimer_log.c, with excimer_log_array_incr and
-- excimer_log_aggr_compare. Counts are `zend_long` values as 64-bit patterns.
pub mod Info
pub mod Counts
pub mod Pass
pub mod Loop
pub mod Traces
pub mod Names
pub mod Order
use mediawiki_php_excimer.Prelude.{
  ℕ, zero, suc, ◌+◌, ◌-◌, ◌%◌, ◌^◌, Bool, true, false, ◌||◌, not, Option, none, some, List, [], ◌∷◌,
  ◌++◌, ◌==◌, ltb, length, if◌then◌else◌,
}
use mediawiki_php_excimer.Prelude.Int.{pos}
use mediawiki_php_excimer.Bytes.{Bytes, format_int}
use mediawiki_php_excimer.Run.{Run, ok, out_of_fuel, ◌>>=◌}
use mediawiki_php_excimer.Zend.{HashApi, str}
use mediawiki_php_excimer.Log.{Frame, Entry, Log, get_frame}
use mediawiki_php_excimer.Log.Key.{codes}
use mediawiki_php_excimer.Log.Name.{deref}
use mediawiki_php_excimer.Log.Trace.{Zval, long, string, frame_to_array}

abbrev pub self_key : Bytes
self_key = codes "self"

abbrev pub inclusive_key : Bytes
inclusive_key = codes "inclusive"

abbrev pub plain_prefix : Option Bytes → Bytes
plain_prefix none = []
plain_prefix (some class_name) = class_name ++ codes "::"

abbrev pub plain_function : Frame → Option Bytes → Run Bytes
plain_function frame none = deref frame.filename
plain_function frame (some function_name) = ok (plain_prefix frame.class_name ++ function_name)

abbrev pub plain_closure : Frame → Run Bytes
plain_closure frame = do
  filename ← deref frame.filename
  ok (
      codes "{closure:"
      ++ (filename ++ (codes "(" ++ (format_int frame.closure_line ++ codes ")}"))))

-- The human-readable name of a frame, spaces included.
unfoldable pub aggr_name : Frame → Run Bytes
aggr_name frame =
    if frame.closure_line == 0
    then plain_function frame frame.function_name
    else plain_closure frame

-- The number in a value; only numbers are counted.
abbrev pub value : Option Zval → ℕ
value none = 0
value (some (long n)) = n
value (some (string s)) = 0

module _ ⦃Z : HashApi⦄ where
  -- ht[key] += term
  unfoldable pub array_incr : Z.Table Zval → Bytes → ℕ → Z.Table Zval
  array_incr ht key term = elim (Z.find ht (str key)) [
    | none ↦ Z.add ht (str key) (long term)
    | some z ↦ Z.assign ht (str key) (long ((value (some z) + term) % 2 ^ 64))
  ]

  unfoldable pub new_info : Frame → Z.Table Zval
  new_info frame =
      Z.add (Z.add (frame_to_array frame) (str self_key) (long 0)) (str inclusive_key) (long 0)

  -- `ht_result` and `ht_unique_names`.
  pub record Aggregate : Type 0 where
    pub result : Z.Table (Z.Table Zval)
    pub unique : Z.Table Zval

  -- The result has an information on the name.
  unfoldable pub find_or_new_info : Bytes → Frame → Aggregate → Aggregate
  find_or_new_info name frame a = elim (Z.find a.result (str name)) [
    | none ↦ record a { result = Z.add a.result (str name) (new_info frame) }
    | some info ↦ a
  ]

  -- excimer_log_array_incr of the information that `zp_info` points to.
  unfoldable pub incr_info : Bytes → Bytes → ℕ → Aggregate → Aggregate
  incr_info name key term a = elim (Z.find a.result (str name)) [
    | none ↦ a
    | some info ↦ record a { result = Z.assign a.result (str name) (array_incr info key term) }
  ]

  unfoldable pub incr_self : Bytes → Bool → ℕ → Aggregate → Aggregate
  incr_self name is_top event_count a = if is_top then incr_info name self_key event_count a else a

  -- A function counts only once in an entry.
  unfoldable pub incr_inclusive : Bytes → ℕ → Aggregate → Aggregate
  incr_inclusive name event_count a = elim (Z.find a.unique (str name)) [
    | none ↦ record (incr_info name inclusive_key event_count a) {
      unique = Z.add a.unique (str name) (long 0);
    }
    | some z ↦ a
  ]

  -- The body of the inner loop.
  unfoldable pub count_frame : Frame → Bool → ℕ → Aggregate → Run Aggregate
  count_frame frame is_top event_count a = do
    name ← aggr_name frame
    ok (
        incr_inclusive name event_count
          (incr_self name is_top event_count (find_or_new_info name frame a)))

  unfoldable pub aggr_loop : ℕ → Log Z → ℕ → Bool → ℕ → Aggregate → Run Aggregate
  aggr_loop zero log frame_index is_top event_count a = out_of_fuel
  aggr_loop (suc fuel) log frame_index is_top event_count a =
      let rest = (do
        frame ← deref (get_frame log (pos frame_index))
        a' ← count_frame frame is_top event_count a
        aggr_loop fuel log frame.prev_index false event_count a') in
      if frame_index == 0 then ok a else rest

  -- The outer loop; the table of unique names is emptied after each entry.
  unfoldable pub aggr_entries : Log Z → List Entry → Aggregate → Run Aggregate
  aggr_entries log [] a = ok a
  aggr_entries log (entry ∷ entries) a = do
    a' ← aggr_loop (suc (length log.frames)) log entry.frame_index true entry.event_count a
    aggr_entries log entries (record a' { unique = Z.new Zval })

  -- excimer_log_aggr_compare does not put `b` before `a`: the difference of the inclusive counts, a
  -- `zend_long` that wraps, is not positive.
  unfoldable pub aggr_compare : Z.Table Zval → Z.Table Zval → Bool
  aggr_compare a b =
      let a_incl = value (Z.find a (str inclusive_key)) in
      let b_incl = value (Z.find b (str inclusive_key)) in
      let difference = (b_incl + (2 ^ 64 - a_incl)) % 2 ^ 64 in
      (difference == 0) || not (ltb difference (2 ^ 63))

  unfoldable pub aggr_by_func : Log Z → Run (Z.Table (Z.Table Zval))
  aggr_by_func log = do
    a ← aggr_entries log log.entries (record { result = Z.new (Z.Table Zval); unique = Z.new Zval })
    ok (Z.sort aggr_compare a.result)
