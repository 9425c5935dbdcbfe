-- ===== src/Log/Recorded.antt =====
-- What recording a stack leaves in the log: the backtrace of the index that find_or_add_frame
-- returns is the part of the stack that the depth limit lets through.

use mediawiki_php_excimer.Prelude.{
  ℕ, ◌+◌, ◌^◌, ◌<◌, ◌≡◌, refl, inl, inr, Option, none, some, List, [], ◌∷◌, ◌++◌, arith, length,
  get_elem?, get_elem?-lt, Bool-cases, sym, ap,
}
use mediawiki_php_excimer.Bytes.{Bytes}
use mediawiki_php_excimer.Run.{Run, ok, >>=-eq-ok}
use mediawiki_php_excimer.Zend.{HashApi}
use mediawiki_php_excimer.Log.{Frame, Log, zero_frame}
use mediawiki_php_excimer.Log.Key.{
  frame_key, truncated_name, fake_filename, frame_key_injective, frame_key-ne-truncated,
}
use mediawiki_php_excimer.Log.Sample.{
  Call, Function, UserFunction, internal, user, make_frame, marker_frame, get_truncation_marker,
  find_or_append, add_call, is_too_deep, caller_index, find_or_add_frame,
}
use mediawiki_php_excimer.Log.Valid.{
  All, Keyed, location, marker, IsFrame, IsValid, Extends, Extends-refl, Extends-trans,
}
use mediawiki_php_excimer.Log.Register.{Registers, find_or_append-Registers}
use mediawiki_php_excimer.Log.Depth.{
  Place, at, truncated, shown, recorded, recorded_from, callers, recorded_from-cons,
  recorded_from-nil, recorded_from_zero,
}

abbrev pub Shows : Frame → Place → Type 0
Shows frame (at filename lineno) = (frame.filename ≡ some filename) × (frame.lineno ≡ lineno)
Shows frame truncated = frame ≡ marker_frame

-- The frames from index `i` along `prev_index` to 0 show the places in turn.
abbrev pub Backtrace : List Frame → ℕ → List Place → Type 0
Backtrace frames i [] = i ≡ 0
Backtrace frames i (p ∷ ps) =
    (frame : Frame) × (get_elem? frames i ≡ some frame)
    × (frame.prev_index < i)
    × Shows frame p
    × Backtrace frames frame.prev_index ps

abbrev pub Lines : List Call → Type 0
Lines = All (λ (c : Call). c.lineno < 2 ^ 32)

marker_of_key : {frame : Frame} → Keyed truncated_name frame → frame ≡ marker_frame
marker_of_key (location f has_file is_key) = absurd (frame_key-ne-truncated f _ _ (sym is_key))
marker_of_key (marker is_key is_marker) = is_marker

place_of_key :
    (f : Bytes) (l p : ℕ) (frame : Frame)
    → l < 2 ^ 32
    → p < 2 ^ 32
    → frame.lineno < 2 ^ 32
    → frame.prev_index < 2 ^ 32
    → Keyed (frame_key f l p) frame
    → (frame.filename ≡ some f) × (frame.lineno ≡ l) × (frame.prev_index ≡ p)
place_of_key f l p frame hl hp hl' hp' (location g has_file is_key) =
    let (e_file, e_line, e_prev) =
      frame_key_injective f g l frame.lineno p frame.prev_index hl hl' hp hp' is_key in
    (rw e_file has_file, sym e_line, sym e_prev)
place_of_key f l p frame hl hp hl' hp' (marker is_key is_marker) =
    absurd (frame_key-ne-truncated f l p is_key)

module _ ⦃Z : HashApi⦄ where
  Backtrace-Extends :
      {log log' : Log Z}
      → Extends log log'
      → (i : ℕ) (ps : List Place) → Backtrace log.frames i ps
      → Backtrace log'.frames i ps
  Backtrace-Extends e i [] b = b
  Backtrace-Extends e i (p ∷ ps) (frame, found, before, shows, rest) =
      (frame, e.frames i frame found, before, shows, Backtrace-Extends e frame.prev_index ps rest)

  -- The result of recording the places `ps`.
  pub record Records (log : Log Z) (ps : List Place) (r : ℕ × Log Z) : Type 0 where
    pub valid : IsValid r.1
    pub extends : Extends log r.1
    pub backtrace : Backtrace r.1.frames r.0 ps
    pub inside : r.0 < length r.1.frames

  Records-nothing : (log : Log Z) → IsValid log → Records log [] (0, log)
  Records-nothing log v = record {
    valid = v;
    extends = Extends-refl log;
    backtrace = refl;
    inside = get_elem?-lt log.frames 0 zero_frame v.zeroth;
  }

  pub get_truncation_marker-Registers :
      (log : Log Z) (r : ℕ × Log Z)
      → IsValid log
      → get_truncation_marker log ≡ ok r
      → Registers log truncated_name r
  unfolding get_truncation_marker
  get_truncation_marker-Registers log r v h =
      let some_frames = get_elem?-lt log.frames 0 zero_frame v.zeroth in
      let is_frame : IsFrame (length log.frames) marker_frame = record {
        caller = some_frames;
        line = omega arith;
        file = fake_filename;
        has_file = refl;
      } in
      find_or_append-Registers log v truncated_name marker_frame r (marker refl refl) is_frame h

  get_truncation_marker-Records :
      (log : Log Z) (r : ℕ × Log Z)
      → IsValid log
      → get_truncation_marker log ≡ ok r
      → Records log (truncated ∷ []) r
  get_truncation_marker-Records log r v h =
      let g = get_truncation_marker-Registers log r v h in
      let is_marker = marker_of_key g.holds.keyed in
      let no_caller : g.holds.frame.prev_index ≡ 0 = ap (λ (f : Frame). f.prev_index) is_marker in
      let positive = g.holds.positive in
      record {
        valid = g.valid;
        extends = g.extends;
        backtrace = (g.holds.frame, g.holds.found, omega arith, is_marker, no_caller);
        inside = get_elem?-lt r.1.frames r.0 g.holds.frame g.holds.found;
      }

  pub find_or_append_call :
      (log : Log Z) (f : UserFunction) (line : ℕ) (ps : List Place) (p r : ℕ × Log Z)
      → line < 2 ^ 32
      → Records log ps p
      → find_or_append p.1 (frame_key f.filename line p.0) (make_frame f line p.0) ≡ ok r
      → Registers p.1 (frame_key f.filename line p.0) r
  unfolding make_frame
  find_or_append_call log f line ps p r hl rec h =
      let inside = rec.inside in
      let is_frame : IsFrame (length p.1.frames) (make_frame f line p.0) = record {
        caller = inside;
        line = hl;
        file = f.filename;
        has_file = refl;
      } in
      find_or_append-Registers p.1 rec.valid (frame_key f.filename line p.0) (make_frame f line p.0)
        r (location f.filename refl refl) is_frame h

  find_or_append-Records :
      (log : Log Z) (f : UserFunction) (line : ℕ) (ps : List Place) (p r : ℕ × Log Z)
      → line < 2 ^ 32
      → Records log ps p
      → find_or_append p.1 (frame_key f.filename line p.0) (make_frame f line p.0) ≡ ok r
      → Records log (at f.filename line ∷ ps) r
  find_or_append-Records log f line ps p r hl rec h =
      let inside = rec.inside in
      let fits = rec.valid.fits in
      let g = find_or_append_call log f line ps p r hl rec h in
      let frame = g.holds.frame in
      let here = g.valid.linked r.0 frame g.holds.positive g.holds.found in
      let caller = here.caller in
      let in_range = get_elem?-lt r.1.frames r.0 frame g.holds.found in
      let fits' = g.valid.fits in
      let (e_file, e_line, e_prev) =
        place_of_key f.filename line p.0 frame hl (omega arith) here.line (omega arith)
          g.holds.keyed in
      record {
        valid = g.valid;
        extends = Extends-trans rec.extends g.extends;
        backtrace = (
          frame,
          g.holds.found,
          caller,
          (e_file, e_line),
          rw e_prev (Backtrace-Extends g.extends p.0 ps rec.backtrace),
        );
        inside = in_range;
      }

  pub same : (p r : ℕ × Log Z) → ok p ≡ ok r → r ≡ p
  same p r h = cc

  pub add_call_by :
      (log : Log Z) (call : Call) (ps : List Place) (p r : ℕ × Log Z)
      → call.lineno < 2 ^ 32
      → Records log ps p
      → add_call call p ≡ ok r
      → (o : Option Function) → call.func ≡ o
      → Records log (shown call ++ ps) r
  unfolding add_call
  add_call_by log call ps p r line rec h none e = rw e (rw (same p r (rw (e, add_call) at h)) rec)
  add_call_by log call ps p r line rec h (some internal) e =
      rw e (rw (same p r (rw (e, add_call) at h)) rec)
  add_call_by log call ps p r line rec h (some (user f)) e =
      rw e (find_or_append-Records log f call.lineno ps p r line rec (rw (e, add_call) at h))

  pub caller_index-Records :
      (log : Log Z) (rest : List Call) (depth : ℕ) (outer : Run (ℕ × Log Z)) (r : ℕ × Log Z)
      → IsValid log
      → (outer ≡ ok r → Records log (recorded_from log.max_depth (depth + 1) rest) r)
      → caller_index log rest depth outer ≡ ok r
      → Records log (callers log.max_depth depth rest) r
  unfolding caller_index callers
  caller_index-Records log [] depth outer r v ih h = rw (same (0, log) r h) (Records-nothing log v)
  caller_index-Records log (call ∷ rest) depth outer r v ih h =
      elim (Bool-cases (is_too_deep log.max_depth depth)) [
        | inl deep ↦ rw deep (get_truncation_marker-Records log r v (rw deep at h))
        | inr shallow ↦ rw shallow (ih (rw shallow at h))
      ]

  pub find_or_add_frame_below :
      (log : Log Z) (stack : List Call) (depth : ℕ) (r : ℕ × Log Z)
      → IsValid log
      → Lines stack
      → find_or_add_frame log stack depth ≡ ok r
      → Records log (recorded_from log.max_depth depth stack) r
  unfolding find_or_add_frame
  find_or_add_frame_below log [] depth r v lines h =
      rw (recorded_from-nil, same (0, log) r h) (Records-nothing log v)
  find_or_add_frame_below log (call ∷ rest) depth r v lines h =
      let ih = find_or_add_frame_below log rest (depth + 1) in
      let (p, e_caller, e_call) =
        >>=-eq-ok (caller_index log rest depth (find_or_add_frame log rest (depth + 1)))
          (add_call call) h in
      let callers_recorded =
        caller_index-Records log rest depth (find_or_add_frame log rest (depth + 1)) p v
          (ih p v lines.1) e_caller in
      rw recorded_from-cons
        (add_call_by log call _ p r lines.0 callers_recorded e_call call.func refl)

  pub find_or_add_frame-Records :
      (log : Log Z) (stack : List Call) (r : ℕ × Log Z)
      → IsValid log
      → Lines stack
      → find_or_add_frame log stack 0 ≡ ok r
      → Records log (recorded log.max_depth stack) r
  find_or_add_frame-Records log stack r v lines h =
      rw (← recorded_from_zero log.max_depth stack)
        (find_or_add_frame_below log stack 0 r v lines h)
