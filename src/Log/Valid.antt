-- ===== src/Log/Valid.antt =====
-- The well-formedness of a log, and its growth while samples are recorded.
use mediawiki_php_excimer.Prelude.{
  ℕ, ◌+◌, ◌%◌, ◌^◌, ◌<◌, ◌≤◌, ◌≡◌, refl, some, List, [], ◌∷◌, ◌++◌, arith, length, get_elem?,
}
use mediawiki_php_excimer.Prelude.Int.{ℤ, pos}
use mediawiki_php_excimer.Bytes.{Bytes}
use mediawiki_php_excimer.Zend.{HashApi, str}
use mediawiki_php_excimer.Log.{Frame, Entry, Log, zero_frame}
use mediawiki_php_excimer.Log.Key.{frame_key, truncated_name}
use mediawiki_php_excimer.Log.Sample.{marker_frame}

abbrev pub All {ℓ κ} : {A : Type ℓ} → (A → Type κ) → List A → Type κ
All P [] = Unit
All P (x ∷ xs) = P x × All P xs

pub All-mono {ℓ κ} :
    {A : Type ℓ} {P Q : A → Type κ} → ((a : A) → P a → Q a) → (xs : List A) → All P xs → All Q xs
All-mono f [] h = h
All-mono f (x ∷ xs) h = (f x h.0, All-mono f xs h.1)

pub All-snoc {ℓ κ} :
    {A : Type ℓ} (P : A → Type κ) (xs : List A) (a : A) → All P xs → P a → All P (xs ++ a ∷ [])
All-snoc P [] a h p = (p, tt)
All-snoc P (x ∷ xs) a h p = (h.0, All-snoc P xs a h.1 p)

-- A frame made from the VM state stands under its location, the truncation marker under its name.
pub data Keyed (key : Bytes) (frame : Frame) : Type 0 where
  location :
      (filename : Bytes)
      → frame.filename ≡ some filename
      → key ≡ frame_key filename frame.lineno frame.prev_index
      → Keyed key frame
  marker : key ≡ truncated_name → frame ≡ marker_frame → Keyed key frame

-- A frame at index `i` of the array: its caller stands before it, so a backtrace ends.
pub record IsFrame (i : ℕ) (frame : Frame) : Type 0 where
  pub caller : frame.prev_index < i
  pub line : frame.lineno < 2 ^ 32
  pub file : Bytes
  pub has_file : frame.filename ≡ some file

-- What the reverse table says: the value is the index of a frame that has the key.
pub record Names (frames : List Frame) (key : Bytes) (value : ℤ) : Type 0 where
  pub index : ℕ
  pub value_index : value ≡ pos index
  pub positive : 0 < index
  pub frame : Frame
  pub found : get_elem? frames index ≡ some frame
  pub keyed : Keyed key frame

-- The sum of the event counts of the entries.
unfoldable pub total : List Entry → ℕ
total [] = 0
total (e ∷ entries) = e.event_count + total entries

pub total-append :
    (entries : List Entry) (e : Entry) → total (entries ++ e ∷ []) ≡ total entries + e.event_count
unfolding total
total-append [] e = omega arith
total-append (x ∷ entries) e = omega (arith, total-append entries e)

module _ ⦃Z : HashApi⦄ where
  pub record IsValid (log : Log Z) : Type 0 where
    pub zeroth : get_elem? log.frames 0 ≡ some zero_frame
    pub fits : length log.frames ≤ 2 ^ 32
    pub linked :
        (i : ℕ) (frame : Frame) → 0 < i → get_elem? log.frames i ≡ some frame → IsFrame i frame
    pub named :
        (key : Bytes) (value : ℤ)
        → Z.find log.reverse_frames (str key) ≡ some value
        → Names log.frames key value
    pub sampled : All (λ (e : Entry). e.frame_index < length log.frames) log.entries
    pub counted : log.event_count ≡ total log.entries % 2 ^ 64

  -- `log'` has the frames of `log` at their indexes and under their keys, and the same samples.
  pub record Extends (log log' : Log Z) : Type 0 where
    pub frames :
        (i : ℕ) (frame : Frame)
        → get_elem? log.frames i ≡ some frame
        → get_elem? log'.frames i ≡ some frame
    pub keys :
        (key : Bytes) (value : ℤ)
        → Z.find log.reverse_frames (str key) ≡ some value
        → Z.find log'.reverse_frames (str key) ≡ some value
    pub entries : log'.entries ≡ log.entries
    pub max_depth : log'.max_depth ≡ log.max_depth

  -- `log'` may have more samples too.
  pub record Grows (log log' : Log Z) : Type 0 where
    pub frames :
        (i : ℕ) (frame : Frame)
        → get_elem? log.frames i ≡ some frame
        → get_elem? log'.frames i ≡ some frame
    pub keys :
        (key : Bytes) (value : ℤ)
        → Z.find log.reverse_frames (str key) ≡ some value
        → Z.find log'.reverse_frames (str key) ≡ some value
    pub max_depth : log'.max_depth ≡ log.max_depth

  pub Grows-trans : {a b c : Log Z} → Grows a b → Grows b c → Grows a c
  Grows-trans h k = record {
    frames = λ i frame e. k.frames i frame (h.frames i frame e);
    keys = λ key value e. k.keys key value (h.keys key value e);
    max_depth = cc (h.max_depth, k.max_depth);
  }

  pub Extends-Grows : {log log' : Log Z} → Extends log log' → Grows log log'
  Extends-Grows e = record { frames = e.frames; keys = e.keys; max_depth = e.max_depth }

  pub Extends-refl : (log : Log Z) → Extends log log
  Extends-refl log = record {
    frames = λ i frame h. h;
    keys = λ key value h. h;
    entries = refl;
    max_depth = refl;
  }

  pub Extends-trans : {a b c : Log Z} → Extends a b → Extends b c → Extends a c
  Extends-trans h k = record {
    frames = λ i frame e. k.frames i frame (h.frames i frame e);
    keys = λ key value e. k.keys key value (h.keys key value e);
    entries = cc (h.entries, k.entries);
    max_depth = cc (h.max_depth, k.max_depth);
  }
