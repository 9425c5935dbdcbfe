-- ===== src/Log/Walk.antt =====
-- The backtrace loops end on a valid log, and visit the frames of the recorded backtrace.
use mediawiki_php_excimer.Prelude.{
  ℕ, zero, suc, ◌+◌, ◌%◌, ◌^◌, ◌<◌, ◌≤◌, ◌≡◌, refl, some, List, [], ◌∷◌, arith, ◌==◌, length,
  get_elem?, get_elem?-lt, get_elem?_total, map, ap, ◌∙◌, false,
}
use mathlib.Core.Path.{subst}
use mediawiki_php_excimer.Prelude.Int.{pos}
use mediawiki_php_excimer.Run.{Run, ok}
use mediawiki_php_excimer.Zend.{HashApi}
use mediawiki_php_excimer.Log.{Frame, Log, get_frame}
use mediawiki_php_excimer.Log.Valid.{IsValid}
use mediawiki_php_excimer.Log.Register.{safe_uint32-ok}
use mediawiki_php_excimer.Log.Depth.{Place}
use mediawiki_php_excimer.Log.Recorded.{Shows, Backtrace}
use mediawiki_php_excimer.Log.Trace.{
  frame_to_array, trace_loop, trace_to_array, count_loop, count_frames, collect_loop,
  collect_frames,
}

-- The frames from index `i` along `prev_index` to 0.
abbrev pub Visits : List Frame → ℕ → List Frame → Type 0
Visits frames i [] = i ≡ 0
Visits frames i (f ∷ fs) =
    (get_elem? frames i ≡ some f) × (f.prev_index < i) × Visits frames f.prev_index fs

-- Each frame shows the place at its position.
abbrev pub ShowsAll : List Frame → List Place → Type 0
ShowsAll [] [] = Unit
ShowsAll [] (p ∷ ps) = ⊥
ShowsAll (f ∷ fs) [] = ⊥
ShowsAll (f ∷ fs) (p ∷ ps) = Shows f p × ShowsAll fs ps

pub visited : (frames : List Frame) (i : ℕ) (ps : List Place) → Backtrace frames i ps → List Frame
visited frames i [] b = []
visited frames i (p ∷ ps) (frame, found, before, shows, rest) =
    frame ∷ visited frames frame.prev_index ps rest

pub Visits-visited :
    (frames : List Frame) (i : ℕ) (ps : List Place) (b : Backtrace frames i ps)
    → Visits frames i (visited frames i ps b)
unfolding visited
Visits-visited frames i [] b = b
Visits-visited frames i (p ∷ ps) (frame, found, before, shows, rest) =
    (found, before, Visits-visited frames frame.prev_index ps rest)

pub ShowsAll-visited :
    (frames : List Frame) (i : ℕ) (ps : List Place) (b : Backtrace frames i ps)
    → ShowsAll (visited frames i ps b) ps
unfolding visited
ShowsAll-visited frames i [] b = tt
ShowsAll-visited frames i (p ∷ ps) (frame, found, before, shows, rest) =
    (shows, ShowsAll-visited frames frame.prev_index ps rest)

pub ne_zero : (i : ℕ) → 0 < i → (i == 0) ≡ false
ne_zero i h = ground arith

pub Visits-unique :
    (frames : List Frame) (i : ℕ) (fs gs : List Frame)
    → Visits frames i fs
    → Visits frames i gs
    → fs ≡ gs
Visits-unique frames i [] [] v w = refl
Visits-unique frames i [] (g ∷ gs) v w = absurd (let before = w.1 in omega arith)
Visits-unique frames i (f ∷ fs) [] v w = absurd (let before = v.1 in omega arith)
Visits-unique frames i (f ∷ fs) (g ∷ gs) v w =
    let same : g ≡ f = cc (v.0, w.0) in
    let w' : Visits frames f.prev_index gs =
      subst (λ (x : Frame). Visits frames x.prev_index gs) same w.2 in
    cc (same, Visits-unique frames f.prev_index fs gs v.2 w')

module _ ⦃Z : HashApi⦄ where
  pub get_frame-some :
      (log : Log Z) (i : ℕ) (f : Frame)
      → 0 < i
      → get_elem? log.frames i ≡ some f
      → get_frame log (pos i) ≡ some f
  unfolding get_frame
  get_frame-some log i f positive found = ground (arith, get_elem?-lt log.frames i f found)

  trace_loop-Visits :
      (log : Log Z) (fuel i : ℕ) (fs : List Frame)
      → i < fuel
      → Visits log.frames i fs
      → trace_loop fuel log i ≡ ok (map frame_to_array fs)
  unfolding trace_loop
  trace_loop-Visits log zero i fs h v = absurd (omega arith)
  trace_loop-Visits log (suc fuel) i [] h v = rw v
  trace_loop-Visits log (suc fuel) i (f ∷ fs) h (found, before, rest) =
      let positive : 0 < i = omega arith in
      let ih = trace_loop-Visits log fuel f.prev_index fs (omega arith) rest in
      rw (ne_zero i positive, get_frame-some log i f positive found, ih)

  count_loop-Visits :
      (log : Log Z) (fuel i n : ℕ) (fs : List Frame)
      → i < fuel
      → n + length fs < 2 ^ 32
      → Visits log.frames i fs
      → count_loop fuel log i n ≡ ok (n + length fs)
  unfolding count_loop
  count_loop-Visits log zero i n fs h fits v = absurd (omega arith)
  count_loop-Visits log (suc fuel) i n [] h fits v =
      let e : n ≡ n + 0 = omega arith in rw v (ap {B = Run ℕ} ok e)
  count_loop-Visits log (suc fuel) i n (f ∷ fs) h fits (found, before, rest) =
      let positive : 0 < i = omega arith in
      let below : n + 1 + length fs < 2 ^ 32 = omega arith in
      let small : (n + 1) % 2 ^ 32 ≡ n + 1 = omega arith in
      let ih = count_loop-Visits log fuel f.prev_index (n + 1) fs (omega arith) below rest in
      let e : n + 1 + length fs ≡ n + suc (length fs) = omega arith in
      rw (ne_zero i positive, found, small, ih) (ap {B = Run ℕ} ok e)

  collect_loop-Visits :
      (log : Log Z) (fuel i : ℕ) (fs : List Frame)
      → i < fuel
      → Visits log.frames i fs
      → collect_loop fuel log i ≡ ok fs
  unfolding collect_loop
  collect_loop-Visits log zero i fs h v = absurd (omega arith)
  collect_loop-Visits log (suc fuel) i [] h v = rw v
  collect_loop-Visits log (suc fuel) i (f ∷ fs) h (found, before, rest) =
      let positive : 0 < i = omega arith in
      let ih = collect_loop-Visits log fuel f.prev_index fs (omega arith) rest in
      rw (ne_zero i positive, get_frame-some log i f positive found, ih)

  -- Every frame index of a valid log starts a finite walk.
  Visits-below :
      (log : Log Z) (k i : ℕ)
      → IsValid log
      → i < k
      → i < length log.frames
      → (fs : List Frame) × Visits log.frames i fs × (length fs ≤ i)
  Visits-below log zero i v h inside = absurd (omega arith)
  Visits-below log (suc k) zero v h inside = ([], refl, omega arith)
  Visits-below log (suc k) (suc i) v h inside =
      let (f, found) = get_elem?_total log.frames (suc i) inside in
      let is_frame = v.linked (suc i) f (omega arith) found in
      let before = is_frame.caller in
      let (fs, rest, short) = Visits-below log k f.prev_index v (omega arith) (omega arith) in
      (f ∷ fs, (found, before, rest), omega arith)

  -- What the three loops return at an index of a valid log: the walk, its arrays and its length.
  pub record Walks (log : Log Z) (i : ℕ) (fs : List Frame) : Type 0 where
    pub visits : Visits log.frames i fs
    pub trace : trace_to_array log (pos i) ≡ ok (map frame_to_array fs)
    pub count : count_frames log i ≡ ok (length fs)
    pub collect : collect_frames log i ≡ ok fs

  Visits-Walks :
      (log : Log Z) (i : ℕ) (fs : List Frame)
      → IsValid log
      → i < length log.frames
      → Visits log.frames i fs
      → length fs ≤ i
      → Walks log i fs
  unfolding trace_to_array count_frames collect_frames
  Visits-Walks log i fs v inside visits short =
      let fits = v.fits in
      record {
        visits = visits;
        trace =
            rw (safe_uint32-ok i (omega arith))
              (trace_loop-Visits log (suc (length log.frames)) i fs (omega arith) visits);
        count =
            let e : 0 + length fs ≡ length fs = omega arith in
            count_loop-Visits log (suc (length log.frames)) i 0 fs (omega arith) (omega arith)
              visits
            ∙ ap {B = Run ℕ} ok e;
        collect = collect_loop-Visits log (suc (length log.frames)) i fs (omega arith) visits;
      }

  -- On a valid log the loops end with no fault at every index of the frame array.
  pub Walks-total :
      (log : Log Z) (i : ℕ)
      → IsValid log
      → i < length log.frames
      → (fs : List Frame) × Walks log i fs
  Walks-total log i v inside =
      let (fs, visits, short) = Visits-below log (suc i) i v (omega arith) inside in
      (fs, Visits-Walks log i fs v inside visits short)
