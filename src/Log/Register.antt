-- ===== src/Log/Register.antt =====
-- `find_or_append`: the frame that is asked for is found or appended, and the log stays valid.
use mediawiki_php_excimer.Prelude.{
  ℕ, ◌^◌, ◌<◌, ◌≡◌, refl, inl, inr, none, some, List, [], ◌∷◌, ◌++◌, arith, length, get_elem?,
  get_elem?-lt, get_elem?-append, get_elem?-append_last, length-append, Option-cases, Bool-cases,
  get_elem?-append_cases, sym, ◌∙◌, if◌then◌else◌,
}
use mediawiki_php_excimer.Prelude.Int.{ℤ, pos}
use mediawiki_php_excimer.Bytes.{Bytes}
use mediawiki_php_excimer.Run.{ok}
use mediawiki_php_excimer.Zend.{HashApi, str, key_eq, key_eq_iff, find-add}
use mediawiki_php_excimer.Log.{Frame, Entry, Log, zero_frame, safe_uint32}
use mediawiki_php_excimer.Log.Sample.{push_frame, append_frame, reuse_frame, find_or_append}
use mediawiki_php_excimer.Log.Valid.{
  All-mono, Keyed, IsFrame, Names, IsValid, Extends, Extends-refl,
}

pub safe_uint32-ok : (i : ℕ) → i < 2 ^ 32 → safe_uint32 (pos i) ≡ ok i
unfolding safe_uint32
safe_uint32-ok i h = ground arith

pub safe_uint32-inv : (n : ℕ) {i : ℕ} → safe_uint32 (pos n) ≡ ok i → (i ≡ n) × (n < 2 ^ 32)
unfolding safe_uint32
safe_uint32-inv n h = ground arith

-- Index `i` of the frames holds a frame that has the key.
pub record Holds (frames : List Frame) (key : Bytes) (i : ℕ) : Type 0 where
  pub frame : Frame
  pub found : get_elem? frames i ≡ some frame
  pub positive : 0 < i
  pub keyed : Keyed key frame

Names-append :
    (frames more : List Frame) {key : Bytes} {value : ℤ}
    → Names frames key value
    → Names (frames ++ more) key value
Names-append frames more n = record {
  index = n.index;
  value_index = n.value_index;
  positive = n.positive;
  frame = n.frame;
  found = get_elem?-append frames more n.index n.frame n.found;
  keyed = n.keyed;
}

module _ ⦃Z : HashApi⦄ where
  pub record Registers (log : Log Z) (key : Bytes) (r : ℕ × Log Z) : Type 0 where
    pub valid : IsValid r.1
    pub extends : Extends log r.1
    pub holds : Holds r.1.frames key r.0
    pub now_found : Z.find r.1.reverse_frames (str key) ≡ some (pos r.0)

  reuse_frame-inv :
      (log : Log Z) (n : ℕ) (r : ℕ × Log Z) → reuse_frame log (pos n) ≡ ok r → r ≡ (n, log)
  unfolding reuse_frame safe_uint32
  reuse_frame-inv log n r h = ground arith

  append_frame-inv :
      (log : Log Z) (key : Bytes) (frame : Frame) (r : ℕ × Log Z)
      → append_frame log key frame ≡ ok r
      → (length log.frames < 2 ^ 32) × (r ≡ (length log.frames, push_frame log key frame))
  unfolding append_frame safe_uint32
  append_frame-inv log key frame r h = ground arith

  module _ (log : Log Z) (v : IsValid log) (key : Bytes) (frame : Frame) where
    reuse_frame-Registers :
        (value : ℤ) (r : ℕ × Log Z)
        → Z.find log.reverse_frames (str key) ≡ some value
        → reuse_frame log value ≡ ok r
        → Registers log key r
    reuse_frame-Registers value r e h =
        let n = v.named key value e in
        let at_index = reuse_frame-inv log n.index r (rw n.value_index at h) in
        rw at_index (record {
          valid = v;
          extends = Extends-refl log;
          holds = record {
            frame = n.frame;
            found = n.found;
            positive = n.positive;
            keyed = n.keyed;
          };
          now_found = rw (← n.value_index) e;
        })

    module _ (e : Z.find log.reverse_frames (str key) ≡ none)
        (fits : length log.frames < 2 ^ 32) where
      Extends-push_frame : Extends log (push_frame log key frame)
      unfolding push_frame
      Extends-push_frame = record {
        frames = λ i f h. get_elem?-append log.frames (frame ∷ []) i f h;
        keys = λ j value h. ground (
          arith,
          find-add log.reverse_frames (str key) (str j) (pos (length log.frames)),
          key_eq_iff (str key) (str j),
        );
        entries = refl;
        max_depth = refl;
      }

      find-push_frame :
          Z.find (push_frame log key frame).reverse_frames (str key)
          ≡ some (pos (length log.frames))
      unfolding push_frame
      find-push_frame =
          rw (find-add log.reverse_frames (str key) (str key) (pos (length log.frames)) e)
            (rw ((key_eq_iff (str key) (str key)).1 refl))

      named_after :
          Keyed key frame
          → (other : Bytes) (value : ℤ)
          → (if key_eq (str key) (str other)
              then some (pos (length log.frames))
              else Z.find log.reverse_frames (str other))
            ≡ some value
          → Names (log.frames ++ frame ∷ []) other value
      named_after k other value h = elim (Bool-cases (key_eq (str key) (str other))) [
        | inl same ↦ record {
          index = length log.frames;
          value_index = ground arith;
          positive = get_elem?-lt log.frames 0 zero_frame v.zeroth;
          frame = frame;
          found = get_elem?-append_last log.frames frame;
          keyed =
              let eq : key ≡ other = ground (arith, key_eq_iff (str key) (str other)) in rw eq at k;
        }
        | inr differs ↦ Names-append log.frames (frame ∷ []) (v.named other value (rw differs at h))
      ]

      push_frame-IsValid :
          Keyed key frame → IsFrame (length log.frames) frame → IsValid (push_frame log key frame)
      unfolding push_frame
      push_frame-IsValid k f = record {
        zeroth = get_elem?-append log.frames (frame ∷ []) 0 zero_frame v.zeroth;
        fits = omega (arith, length-append log.frames (frame ∷ []));
        linked = λ i other p h. elim (get_elem?-append_cases log.frames frame i other h) [
          | inl old ↦ v.linked i other p old
          | inr (at_end, new) ↦ rw (at_end, new) f
        ];
        named = λ other value h. named_after k other value (
            sym (find-add log.reverse_frames (str key) (str other) (pos (length log.frames)) e)
            ∙ h);
        sampled =
            All-mono
              (λ (e : Entry) (h : e.frame_index < length log.frames).
                omega (arith, length-append log.frames (frame ∷ [])))
              log.entries v.sampled;
        counted = v.counted;
      }

    append_frame-Registers :
        (r : ℕ × Log Z)
        → Z.find log.reverse_frames (str key) ≡ none
        → Keyed key frame
        → IsFrame (length log.frames) frame
        → append_frame log key frame ≡ ok r
        → Registers log key r
    append_frame-Registers r e k f h =
        let (fits, at_end) = append_frame-inv log key frame r h in
        rw at_end (record {
          valid = push_frame-IsValid e fits k f;
          extends = Extends-push_frame e fits;
          holds = record {
            frame = frame;
            found = unfold push_frame in get_elem?-append_last log.frames frame;
            positive = get_elem?-lt log.frames 0 zero_frame v.zeroth;
            keyed = k;
          };
          now_found = find-push_frame e fits;
        })

    pub find_or_append-Registers :
        (r : ℕ × Log Z)
        → Keyed key frame
        → IsFrame (length log.frames) frame
        → find_or_append log key frame ≡ ok r
        → Registers log key r
    unfolding find_or_append
    find_or_append-Registers r k f h = elim (Option-cases (Z.find log.reverse_frames (str key))) [
      | inl e ↦ append_frame-Registers r e k f (rw (e, find_or_append) at h)
      | inr (value, e) ↦ reuse_frame-Registers value r e (rw (e, find_or_append) at h)
    ]
