-- ===== src/Log/Strings/Record.antt =====
-- Recording keeps the references that the frames hold, and no others.
use mediawiki_php_excimer.Prelude.{
  ℕ, ◌+◌, ◌<◌, ◌≡◌, refl, inl, inr, none, some, List, [], ◌∷◌, ◌++◌, arith, Bool-cases,
  Option-cases, Option,
}
use mediawiki_php_excimer.Prelude.Int.{ℤ}
use mediawiki_php_excimer.Bytes.{Bytes}
use mediawiki_php_excimer.Run.{Run, ok, ◌>>=◌, >>=-eq-ok}
use mediawiki_php_excimer.Zend.{HashApi, str}
use mediawiki_php_excimer.Zend.Strings.{StringApi, one}
use mediawiki_php_excimer.Log.{Frame, Log, safe_uint32}
use mediawiki_php_excimer.Log.Key.{frame_key, truncated_name}
use mediawiki_php_excimer.Log.Sample.{
  Call, Function, internal, user, make_frame, marker_frame, push_frame, append_frame, reuse_frame,
  find_or_append, get_truncation_marker, add_call, is_too_deep, caller_index, find_or_add_frame,
}
use mediawiki_php_excimer.Log.Strings.{
  Outcome, addref_frame, create_frame, delref_frame, find_or_append_counting,
  get_truncation_marker_counting, add_call_counting, caller_index_counting,
  find_or_add_frame_counting,
}
use mediawiki_php_excimer.Log.Strings.Frames.{
  uses, held, held-snoc, one_same, Drops, delref-Drops, free-Drops, bind-Drops,
  refcount-addref_frame, refcount-create_frame, delref_frame-Drops,
}

module _ ⦃Z : HashApi⦄ ⦃S : StringApi⦄ where
  -- The counts change as what the frames hold does.
  abbrev pub Balanced : Log Z → S.Heap → Log Z → S.Heap → Type 0
  Balanced log h log' h' =
      (t : Bytes) → S.refcount h' t + held log.frames t ≡ S.refcount h t + held log'.frames t

  -- The call with counts has the result of the call without, and a balanced heap.
  pub record Counts (log : Log Z) (h : S.Heap) (r : ℕ × Log Z) (outcome : Outcome) : Type 0 where
    pub heap : S.Heap
    pub succeeds : outcome ≡ ok (r, heap)
    pub balanced : Balanced log h r.1 heap

  pub append_frame-frames :
      (log : Log Z) (key : Bytes) (frame : Frame) (r : ℕ × Log Z)
      → append_frame log key frame ≡ ok r
      → r.1.frames ≡ log.frames ++ frame ∷ []
  unfolding append_frame push_frame safe_uint32
  append_frame-frames log key frame r e = ground arith

  pub reuse_frame-log :
      (log : Log Z) (index : ℤ) (r : ℕ × Log Z) → reuse_frame log index ≡ ok r → r.1 ≡ log
  unfolding reuse_frame safe_uint32
  reuse_frame-log log index r e = ground arith

  module _ (log : Log Z) (h : S.Heap) (r : ℕ × Log Z) where
    appended-Balanced :
        (key : Bytes) (frame : Frame) (h' : S.Heap)
        → append_frame log key frame ≡ ok r
        → ((t : Bytes) → S.refcount h' t ≡ S.refcount h t + uses frame t)
        → Balanced log h r.1 h'
    appended-Balanced key frame h' e c t =
        rw (append_frame-frames log key frame r e)
          (omega (arith, c t, held-snoc log.frames frame t))

    reused-Balanced :
        (index : ℤ) (h' : S.Heap)
        → reuse_frame log index ≡ ok r
        → ((t : Bytes) → S.refcount h' t ≡ S.refcount h t)
        → Balanced log h r.1 h'
    reused-Balanced index h' e c t = rw (reuse_frame-log log index r e) (omega (arith, c t))

    get_truncation_marker-Counts :
        get_truncation_marker log ≡ ok r → Counts log h r (get_truncation_marker_counting log h)
    unfolding get_truncation_marker get_truncation_marker_counting find_or_append
    get_truncation_marker-Counts e =
        elim (Option-cases (Z.find log.reverse_frames (str truncated_name))) [
          | inl absent ↦
              let e' : append_frame log truncated_name marker_frame ≡ ok r =
                rw (absent, find_or_append) at e in
              rw (absent, get_truncation_marker_counting, e')
                (record {
                  heap = create_frame h marker_frame;
                  succeeds = refl;
                  balanced =
                      appended-Balanced truncated_name marker_frame _ e'
                        (refcount-create_frame h marker_frame);
                })
          | inr (index, found) ↦
              let e' : reuse_frame log index ≡ ok r = rw (found, find_or_append) at e in
              rw (found, get_truncation_marker_counting, e')
                (record {
                  heap = h;
                  succeeds = refl;
                  balanced = reused-Balanced index h e' (λ t. refl);
                })
        ]

    module _ (key : Bytes) (frame : Frame) where
      -- The heap when the frame and its key have been made.
      made : S.Heap
      made = S.create (addref_frame h frame) key

      refcount-made : (t : Bytes) → S.refcount made t ≡ S.refcount h t + uses frame t + one key t
      unfolding made
      refcount-made t =
          omega
            (arith, S.refcount-create (addref_frame h frame) key t, refcount-addref_frame h frame t)

      key_counted : 0 < S.refcount made key
      key_counted = omega (arith, refcount-made key, one_same key)

      given_back :
          Drops
            (λ t. one key t + uses frame t)
            made
            (S.free made key >>= λ freed. delref_frame freed frame)
      given_back =
          bind-Drops (one key) (uses frame) made (S.free made key)
            (λ freed. delref_frame freed frame) (free-Drops made key key_counted)
            (λ h1 c1. delref_frame-Drops h1 frame (λ t. omega (arith, c1 t, refcount-made t)))

      find_or_append-Counts :
          find_or_append log key frame ≡ ok r
          → Counts log h r (find_or_append_counting log key frame h)
      unfolding find_or_append find_or_append_counting made
      find_or_append-Counts e = elim (Option-cases (Z.find log.reverse_frames (str key))) [
        | inl absent ↦
            let e' : append_frame log key frame ≡ ok r = rw (absent, find_or_append) at e in
            let d = delref-Drops made key key_counted in
            rw (absent, find_or_append_counting, e', d.succeeds)
              (record {
                heap = d.heap;
                succeeds = refl;
                balanced =
                    appended-Balanced key frame d.heap e'
                      (λ t. omega (arith, d.count t, refcount-made t));
              })
        | inr (index, found) ↦
            let e' : reuse_frame log index ≡ ok r = rw (found, find_or_append) at e in
            let d = given_back in
            let (freed, e_free, e_drop) =
              >>=-eq-ok (S.free made key) (λ freed. delref_frame freed frame) d.succeeds in
            rw (found, find_or_append_counting, e_free, e_drop, e')
              (record {
                heap = d.heap;
                succeeds = refl;
                balanced =
                    reused-Balanced index d.heap e'
                      (λ t. omega (arith, d.count t, refcount-made t));
              })
      ]

  nothing-Counts :
      (log : Log Z) (h : S.Heap) (i : ℕ) (r : ℕ × Log Z)
      → ok (i, log) ≡ ok r
      → Counts log h r (ok ((i, log), h))
  nothing-Counts log h i r e =
      let same : (i, log) ≡ r = cc in
      rw (← same) (record { heap = h; succeeds = refl; balanced = λ t. refl })

  add_call-Counts :
      (call : Call) (i : ℕ) (log : Log Z) (h : S.Heap) (r : ℕ × Log Z)
      → (o : Option Function) → call.func ≡ o
      → add_call call (i, log) ≡ ok r
      → Counts log h r (add_call_counting call ((i, log), h))
  unfolding add_call add_call_counting
  add_call-Counts call i log h r none f e =
      rw (f, add_call_counting) (nothing-Counts log h i r (rw (f, add_call) at e))
  add_call-Counts call i log h r (some internal) f e =
      rw (f, add_call_counting) (nothing-Counts log h i r (rw (f, add_call) at e))
  add_call-Counts call i log h r (some (user func)) f e =
      rw (f, add_call_counting)
        (find_or_append-Counts log h r (frame_key func.filename call.lineno i)
          (make_frame func call.lineno i) (rw (f, add_call) at e))

  caller_index-Counts :
      (log : Log Z) (rest : List Call) (depth : ℕ) (h : S.Heap) (r : ℕ × Log Z)
      (outer : Run (ℕ × Log Z)) (counting : Outcome)
      → (outer ≡ ok r → Counts log h r counting)
      → caller_index log rest depth outer ≡ ok r
      → Counts log h r (caller_index_counting log rest depth h counting)
  unfolding caller_index caller_index_counting
  caller_index-Counts log [] depth h r outer counting k e = nothing-Counts log h 0 r e
  caller_index-Counts log (call ∷ rest) depth h r outer counting k e =
      elim (Bool-cases (is_too_deep log.max_depth depth)) [
        | inl deep ↦ rw deep (get_truncation_marker-Counts log h r (rw deep at e))
        | inr shallow ↦ rw shallow (k (rw shallow at e))
      ]

  bind-Counts :
      (log : Log Z) (h : S.Heap) (p r : ℕ × Log Z) (counting : Outcome)
      (next : (ℕ × Log Z) × S.Heap → Outcome)
      → Counts log h p counting
      → ((h' : S.Heap) → Counts p.1 h' r (next (p, h')))
      → Counts log h r (counting >>= next)
  bind-Counts log h p r counting next c k =
      let later = k c.heap in
      rw c.succeeds (record {
        heap = later.heap;
        succeeds = later.succeeds;
        balanced = λ t. omega (arith, c.balanced t, later.balanced t);
      })

  pub find_or_add_frame-Counts :
      (log : Log Z) (stack : List Call) (depth : ℕ) (h : S.Heap) (r : ℕ × Log Z)
      → find_or_add_frame log stack depth ≡ ok r
      → Counts log h r (find_or_add_frame_counting log stack depth h)
  unfolding find_or_add_frame find_or_add_frame_counting
  find_or_add_frame-Counts log [] depth h r e = nothing-Counts log h 0 r e
  find_or_add_frame-Counts log (call ∷ rest) depth h r e =
      let outer = find_or_add_frame log rest (depth + 1) in
      let (p, e_caller, e_call) = >>=-eq-ok (caller_index log rest depth outer) (add_call call) e in
      bind-Counts log h p r _ (add_call_counting call)
        (caller_index-Counts log rest depth h p outer _
          (find_or_add_frame-Counts log rest (depth + 1) h p) e_caller)
        (λ h'. add_call-Counts call p.0 p.1 h' r call.func refl e_call)
