-- ===== src/Log/Again.antt =====
-- Deduplication: recording a stack again adds no frame, however much was recorded in between.
use mediawiki_php_excimer.Prelude.{
  ℕ, ◌+◌, ◌^◌, ◌<◌, ◌≡◌, refl, inl, inr, Option, none, some, true, false, List, [], ◌∷◌, arith,
  get_elem?-lt, Bool-cases,
}
use mediawiki_php_excimer.Prelude.Int.{pos}
use mediawiki_php_excimer.Bytes.{Bytes}
use mediawiki_php_excimer.Run.{Run, ok, >>=-eq-ok}
use mediawiki_php_excimer.Zend.{HashApi, str}
use mediawiki_php_excimer.Log.{Frame, Log}
use mediawiki_php_excimer.Log.Sample.{
  Call, Function, internal, user, make_frame, marker_frame, reuse_frame, find_or_append,
  get_truncation_marker, add_call, is_too_deep, caller_index, find_or_add_frame,
}
use mediawiki_php_excimer.Log.Valid.{IsValid, Extends-refl, Extends-Grows, Grows, Grows-trans}
use mediawiki_php_excimer.Log.Key.{frame_key, truncated_name}
use mediawiki_php_excimer.Log.Depth.{Place}
use mediawiki_php_excimer.Log.Recorded.{
  Records, Lines, same, get_truncation_marker-Registers, find_or_append_call, add_call_by,
  caller_index-Records, find_or_add_frame_below,
}
use mediawiki_php_excimer.Log.Register.{Registers, safe_uint32-ok}

module _ ⦃Z : HashApi⦄ where
  -- In `log` the key is taken by the index `i`.
  abbrev pub HasKey : Log Z → Bytes → ℕ → Type 0
  HasKey log key i = (Z.find log.reverse_frames (str key) ≡ some (pos i)) × (i < 2 ^ 32)

  HasKey-find_or_append :
      (log : Log Z) (key : Bytes) (frame : Frame) (i : ℕ)
      → HasKey log key i
      → find_or_append log key frame ≡ ok (i, log)
  unfolding find_or_append reuse_frame
  HasKey-find_or_append log key frame i (e, fits) = rw (e, find_or_append, safe_uint32-ok i fits)

  Registers-HasKey :
      {log : Log Z} {key : Bytes} {r : ℕ × Log Z}
      → Registers log key r
      → (later : Log Z) → Grows r.1 later
      → HasKey later key r.0
  Registers-HasKey {key} {r} g later grows =
      let inside = get_elem?-lt r.1.frames r.0 g.holds.frame g.holds.found in
      let fits = g.valid.fits in (grows.keys key (pos r.0) g.now_found, omega arith)

  marker_again :
      (log : Log Z) (r : ℕ × Log Z)
      → IsValid log
      → get_truncation_marker log ≡ ok r
      → (later : Log Z) → Grows r.1 later
      → get_truncation_marker later ≡ ok (r.0, later)
  unfolding get_truncation_marker
  marker_again log r v h later grows =
      HasKey-find_or_append later truncated_name marker_frame r.0
        (Registers-HasKey (get_truncation_marker-Registers log r v h) later grows)

  call_again :
      (log : Log Z) (call : Call) (ps : List Place) (p r : ℕ × Log Z)
      → call.lineno < 2 ^ 32
      → Records log ps p
      → add_call call p ≡ ok r
      → (later : Log Z) → Grows r.1 later
      → (o : Option Function) → call.func ≡ o
      → add_call call (p.0, later) ≡ ok (r.0, later)
  unfolding add_call
  call_again log call ps p r line rec h later grows none e =
      rw (same p r (rw (e, add_call) at h)) (rw (e, add_call))
  call_again log call ps p r line rec h later grows (some internal) e =
      rw (same p r (rw (e, add_call) at h)) (rw (e, add_call))
  call_again log call ps p r line rec h later grows (some (user f)) e =
      rw (e, add_call)
        (HasKey-find_or_append later (frame_key f.filename call.lineno p.0)
          (make_frame f call.lineno p.0) r.0
          (Registers-HasKey
            (find_or_append_call log f call.lineno ps p r line rec (rw (e, add_call) at h)) later
            grows))

  add_call-Grows :
      (log : Log Z) (call : Call) (ps : List Place) (p r : ℕ × Log Z)
      → call.lineno < 2 ^ 32
      → Records log ps p
      → add_call call p ≡ ok r
      → (o : Option Function) → call.func ≡ o
      → Grows p.1 r.1
  unfolding add_call
  add_call-Grows log call ps p r line rec h none e =
      rw (same p r (rw (e, add_call) at h)) (Extends-Grows (Extends-refl p.1))
  add_call-Grows log call ps p r line rec h (some internal) e =
      rw (same p r (rw (e, add_call) at h)) (Extends-Grows (Extends-refl p.1))
  add_call-Grows log call ps p r line rec h (some (user f)) e =
      Extends-Grows
        (find_or_append_call log f call.lineno ps p r line rec (rw (e, add_call) at h)).extends

  caller_again :
      (log : Log Z) (rest : List Call) (depth : ℕ) (outer : Run (ℕ × Log Z)) (r : ℕ × Log Z)
      → IsValid log
      → caller_index log rest depth outer ≡ ok r
      → (later : Log Z) → later.max_depth ≡ log.max_depth
      → Grows r.1 later
      → (outer' : Run (ℕ × Log Z)) → (outer ≡ ok r → outer' ≡ ok (r.0, later))
      → caller_index later rest depth outer' ≡ ok (r.0, later)
  unfolding caller_index
  caller_again log [] depth outer r v h later same_depth grows outer' ih = rw (same (0, log) r h)
  caller_again log (call ∷ rest) depth outer r v h later same_depth grows outer' ih =
      elim (Bool-cases (is_too_deep log.max_depth depth)) [
        | inl deep ↦
            let deep' : is_too_deep later.max_depth depth ≡ true = rw same_depth deep in
            rw deep' (marker_again log r v (rw deep at h) later grows)
        | inr shallow ↦
            let shallow' : is_too_deep later.max_depth depth ≡ false = rw same_depth shallow in
            rw shallow' (ih (rw shallow at h))
      ]

  -- Recording a stack in a log that has grown since it was first recorded there returns the index
  -- that it had, and changes nothing.
  pub find_or_add_frame_again :
      (log : Log Z) (stack : List Call) (depth : ℕ) (r : ℕ × Log Z)
      → IsValid log
      → Lines stack
      → find_or_add_frame log stack depth ≡ ok r
      → (later : Log Z) → Grows r.1 later
      → find_or_add_frame later stack depth ≡ ok (r.0, later)
  unfolding find_or_add_frame
  find_or_add_frame_again log [] depth r v lines h later grows = rw (same (0, log) r h)
  find_or_add_frame_again log (call ∷ rest) depth r v lines h later grows =
      let outer = find_or_add_frame log rest (depth + 1) in
      let (p, e_caller, e_call) = >>=-eq-ok (caller_index log rest depth outer) (add_call call) h in
      let recorded =
        caller_index-Records log rest depth outer p v
          (find_or_add_frame_below log rest (depth + 1) p v lines.1) e_caller in
      let whole = add_call_by log call _ p r lines.0 recorded e_call call.func refl in
      let more = add_call-Grows log call _ p r lines.0 recorded e_call call.func refl in
      let from_caller = Grows-trans more grows in
      rw
        (caller_again log rest depth outer p v e_caller later
          (cc (grows.max_depth, whole.extends.max_depth)) from_caller
          (find_or_add_frame later rest (depth + 1))
          (λ e. find_or_add_frame_again log rest (depth + 1) p v lines.1 e later from_caller))
        (call_again log call _ p r lines.0 recorded e_call later grows call.func refl)
