-- ===== src/Log/Total.antt =====
-- Recording a stack does not fail while the frame indexes fit in 32 bits.
use mediawiki_php_excimer.Prelude.{
  ℕ, ◌+◌, ◌^◌, ◌<◌, ◌≤◌, ◌≡◌, refl, inl, inr, Option, none, some, List, [], ◌∷◌, arith, length,
  length-append, get_elem?-lt, Bool-cases, Option-cases,
}
use mediawiki_php_excimer.Bytes.{Bytes}
use mediawiki_php_excimer.Run.{Run, ok}
use mediawiki_php_excimer.Zend.{HashApi, str}
use mediawiki_php_excimer.Log.{Frame, Log}
use mediawiki_php_excimer.Log.Key.{frame_key, truncated_name}
use mediawiki_php_excimer.Log.Sample.{
  Call, Function, internal, user, make_frame, marker_frame, push_frame, append_frame, reuse_frame,
  find_or_append, get_truncation_marker, add_call, is_too_deep, caller_index, find_or_add_frame,
}
use mediawiki_php_excimer.Log.Valid.{IsValid}
use mediawiki_php_excimer.Log.Recorded.{Lines, caller_index-Records, find_or_add_frame_below}
use mediawiki_php_excimer.Log.Register.{safe_uint32-ok}

module _ ⦃Z : HashApi⦄ where
  -- The step succeeds, and adds at most `n` frames.
  pub record Succeeds (log : Log Z) (n : ℕ) (outcome : Run (ℕ × Log Z)) : Type 0 where
    pub result : ℕ × Log Z
    pub succeeds : outcome ≡ ok result
    pub growth : length result.1.frames ≤ length log.frames + n

  append_frame-Succeeds :
      (log : Log Z) (key : Bytes) (frame : Frame)
      → length log.frames < 2 ^ 32
      → Succeeds log 1 (append_frame log key frame)
  unfolding append_frame push_frame
  append_frame-Succeeds log key frame room = record {
    result = (length log.frames, push_frame log key frame);
    succeeds = rw (safe_uint32-ok (length log.frames) room);
    growth = omega (arith, length-append log.frames (frame ∷ []));
  }

  find_or_append-Succeeds :
      (log : Log Z) (key : Bytes) (frame : Frame)
      → IsValid log
      → length log.frames < 2 ^ 32
      → Succeeds log 1 (find_or_append log key frame)
  unfolding find_or_append reuse_frame
  find_or_append-Succeeds log key frame v room =
      elim (Option-cases (Z.find log.reverse_frames (str key))) [
        | inl e ↦ rw (e, find_or_append) (append_frame-Succeeds log key frame room)
        | inr (value, e) ↦
            let n = v.named key value e in
            let inside = get_elem?-lt log.frames n.index n.frame n.found in
            let fits = v.fits in
            rw (e, find_or_append, n.value_index)
              (record {
                result = (n.index, log);
                succeeds = rw (safe_uint32-ok n.index (omega arith));
                growth = omega arith;
              })
      ]

  Succeeds-none : (log : Log Z) (n i : ℕ) → Succeeds log n (ok (i, log))
  Succeeds-none log n i = record { result = (i, log); succeeds = refl; growth = omega arith }

  add_call-Succeeds :
      (log : Log Z) (call : Call) (i : ℕ)
      → IsValid log
      → length log.frames < 2 ^ 32
      → (o : Option Function) → call.func ≡ o
      → Succeeds log 1 (add_call call (i, log))
  unfolding add_call
  add_call-Succeeds log call i v room none e = rw (e, add_call) (Succeeds-none log 1 i)
  add_call-Succeeds log call i v room (some internal) e = rw (e, add_call) (Succeeds-none log 1 i)
  add_call-Succeeds log call i v room (some (user f)) e =
      rw (e, add_call)
        (find_or_append-Succeeds log (frame_key f.filename call.lineno i)
          (make_frame f call.lineno i) v room)

  caller_index-Succeeds :
      (log : Log Z) (rest : List Call) (depth : ℕ) (outer : Run (ℕ × Log Z))
      → IsValid log
      → length log.frames + length rest < 2 ^ 32
      → Succeeds log (length rest) outer
      → Succeeds log (length rest) (caller_index log rest depth outer)
  unfolding caller_index get_truncation_marker
  caller_index-Succeeds log [] depth outer v room s = Succeeds-none log 0 0
  caller_index-Succeeds log (call ∷ rest) depth outer v room s =
      elim (Bool-cases (is_too_deep log.max_depth depth)) [
        | inl deep ↦
            let marker = find_or_append-Succeeds log truncated_name marker_frame v (omega arith) in
            let growth = marker.growth in
            rw deep
              (record { result = marker.result; succeeds = marker.succeeds; growth = omega arith })
        | inr shallow ↦ rw shallow s
      ]

  pub find_or_add_frame-Succeeds :
      (log : Log Z) (stack : List Call) (depth : ℕ)
      → IsValid log
      → Lines stack
      → length log.frames + length stack ≤ 2 ^ 32
      → Succeeds log (length stack) (find_or_add_frame log stack depth)
  unfolding find_or_add_frame
  find_or_add_frame-Succeeds log [] depth v lines room = Succeeds-none log 0 0
  find_or_add_frame-Succeeds log (call ∷ rest) depth v lines room =
      let outer = find_or_add_frame log rest (depth + 1) in
      let c =
        caller_index-Succeeds log rest depth outer v (omega arith)
          (find_or_add_frame-Succeeds log rest (depth + 1) v lines.1 (omega arith)) in
      let p = c.result in
      let recorded =
        caller_index-Records log rest depth outer p v
          (find_or_add_frame_below log rest (depth + 1) p v lines.1) c.succeeds in
      let before = c.growth in
      let s = add_call-Succeeds p.1 call p.0 recorded.valid (omega arith) call.func refl in
      let after = s.growth in
      rw c.succeeds (record { result = s.result; succeeds = s.succeeds; growth = omega arith })
