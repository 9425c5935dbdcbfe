-- ===== src/Log/Strings/Frames.antt =====
-- What the operations on the strings of one frame do to the counts.
use mediawiki_php_excimer.Prelude.{
  ℕ, ◌+◌, ◌<◌, ◌≤◌, ◌≡◌, refl, Option, none, some, List, [], ◌∷◌, ◌++◌, arith,
}
use mediawiki_php_excimer.Bytes.{Bytes, bytes_eq_iff}
use mediawiki_php_excimer.Run.{Run, ok, ◌>>=◌}
use mediawiki_php_excimer.Zend.Strings.{StringApi, one}
use mediawiki_php_excimer.Log.{Frame}
use mediawiki_php_excimer.Log.Strings.{
  addref_some, create_some, delref_some, addref_frame, create_frame, delref_frame, delref_frames,
}

unfoldable pub one_some : Option Bytes → Bytes → ℕ
one_some none t = 0
one_some (some s) t = one s t

-- How often a frame refers to a string.
unfoldable pub uses : Frame → Bytes → ℕ
uses frame t =
    one_some frame.filename t + one_some frame.class_name t + one_some frame.function_name t

-- How often the frames refer to a string.
unfoldable pub held : List Frame → Bytes → ℕ
held [] t = 0
held (frame ∷ frames) t = uses frame t + held frames t

pub held-snoc :
    (frames : List Frame) (frame : Frame) (t : Bytes)
    → held (frames ++ frame ∷ []) t ≡ held frames t + uses frame t
unfolding held
held-snoc [] frame t = omega arith
held-snoc (f ∷ frames) frame t = omega (arith, held-snoc frames frame t)

pub one_same : (s : Bytes) → one s s ≡ 1
unfolding one
one_same s = rw ((bytes_eq_iff s s).1 refl)

module _ ⦃S : StringApi⦄ where
  -- The call drops the references that `n` counts.
  pub record Drops (n : Bytes → ℕ) (h : S.Heap) (outcome : Run S.Heap) : Type 0 where
    pub heap : S.Heap
    pub succeeds : outcome ≡ ok heap
    pub count : (t : Bytes) → S.refcount heap t + n t ≡ S.refcount h t

  pub delref-Drops : (h : S.Heap) (s : Bytes) → 0 < S.refcount h s → Drops (one s) h (S.delref h s)
  delref-Drops h s p =
      let (h', e, c) = S.delref-ok h s p in record { heap = h'; succeeds = e; count = c }

  pub free-Drops : (h : S.Heap) (s : Bytes) → 0 < S.refcount h s → Drops (one s) h (S.free h s)
  free-Drops h s p =
      let (h', e, c) = S.free-ok h s p in record { heap = h'; succeeds = e; count = c }

  pub bind-Drops :
      (m n : Bytes → ℕ) (h : S.Heap) (outcome : Run S.Heap) (next : S.Heap → Run S.Heap)
      → Drops m h outcome
      → ((h' : S.Heap)
          → ((t : Bytes) → S.refcount h' t + m t ≡ S.refcount h t)
          → Drops n h' (next h'))
      → Drops (λ t. m t + n t) h (outcome >>= next)
  bind-Drops m n h outcome next d k =
      let later = k d.heap d.count in
      rw d.succeeds (record {
        heap = later.heap;
        succeeds = later.succeeds;
        count = λ t. omega (arith, d.count t, later.count t);
      })

  delref_some-Drops :
      (h : S.Heap) (s : Option Bytes)
      → ((t : Bytes) → one_some s t ≤ S.refcount h t)
      → Drops (one_some s) h (delref_some h s)
  unfolding delref_some one_some
  delref_some-Drops h none le = record { heap = h; succeeds = refl; count = λ t. omega arith }
  delref_some-Drops h (some s) le = delref-Drops h s (omega (arith, le s, one_same s))

  refcount-addref_some :
      (h : S.Heap) (s : Option Bytes) (t : Bytes)
      → S.refcount (addref_some h s) t ≡ S.refcount h t + one_some s t
  unfolding addref_some one_some
  refcount-addref_some h none t = omega arith
  refcount-addref_some h (some s) t = S.refcount-addref h s t

  pub refcount-addref_frame :
      (h : S.Heap) (frame : Frame) (t : Bytes)
      → S.refcount (addref_frame h frame) t ≡ S.refcount h t + uses frame t
  unfolding addref_frame uses
  refcount-addref_frame h frame t =
      let first = addref_some h frame.filename in
      let second = addref_some first frame.class_name in
      omega (
        arith,
        refcount-addref_some h frame.filename t,
        refcount-addref_some first frame.class_name t,
        refcount-addref_some second frame.function_name t,
      )

  refcount-create_some :
      (h : S.Heap) (s : Option Bytes) (t : Bytes)
      → S.refcount (create_some h s) t ≡ S.refcount h t + one_some s t
  unfolding create_some one_some
  refcount-create_some h none t = omega arith
  refcount-create_some h (some s) t = S.refcount-create h s t

  pub refcount-create_frame :
      (h : S.Heap) (frame : Frame) (t : Bytes)
      → S.refcount (create_frame h frame) t ≡ S.refcount h t + uses frame t
  unfolding create_frame uses
  refcount-create_frame h frame t =
      let first = create_some h frame.filename in
      let second = create_some first frame.class_name in
      omega (
        arith,
        refcount-create_some h frame.filename t,
        refcount-create_some first frame.class_name t,
        refcount-create_some second frame.function_name t,
      )

  pub delref_frame-Drops :
      (h : S.Heap) (frame : Frame)
      → ((t : Bytes) → uses frame t ≤ S.refcount h t)
      → Drops (uses frame) h (delref_frame h frame)
  unfolding delref_frame uses
  delref_frame-Drops h frame le =
      let d =
        bind-Drops (one_some frame.filename)
          (λ t. one_some frame.class_name t + one_some frame.function_name t) h
          (delref_some h frame.filename)
          (λ h1. delref_some h1 frame.class_name >>= λ h2. delref_some h2 frame.function_name)
          (delref_some-Drops h frame.filename (λ t. omega (arith, le t)))
          (λ h1 c1.
            bind-Drops (one_some frame.class_name) (one_some frame.function_name) h1
              (delref_some h1 frame.class_name) (λ h2. delref_some h2 frame.function_name)
              (delref_some-Drops h1 frame.class_name (λ t. omega (arith, le t, c1 t)))
              (λ h2 c2.
                delref_some-Drops h2 frame.function_name (λ t. omega (arith, le t, c1 t, c2 t)))) in
      record { heap = d.heap; succeeds = d.succeeds; count = λ t. omega (arith, d.count t) }

  pub delref_frames-Drops :
      (frames : List Frame) (h : S.Heap)
      → ((t : Bytes) → held frames t ≤ S.refcount h t)
      → Drops (held frames) h (delref_frames frames h)
  unfolding delref_frames held
  delref_frames-Drops [] h le = record { heap = h; succeeds = refl; count = λ t. omega arith }
  delref_frames-Drops (frame ∷ frames) h le =
      bind-Drops (uses frame) (held frames) h (delref_frame h frame) (delref_frames frames)
        (delref_frame-Drops h frame (λ t. omega (arith, le t)))
        (λ h1 c1. delref_frames-Drops frames h1 (λ t. omega (arith, le t, c1 t)))
