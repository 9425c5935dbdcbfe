-- ===== src/Log/Speedscope/Samples.antt =====
-- The samples of the speedscope data: the shared indexes of the frames of each backtrace, the
-- outermost first.
use mediawiki_php_excimer.Prelude.{
  ℕ, ◌+◌, ◌*◌, ◌%◌, ◌^◌, ◌<◌, ◌≡◌, refl, sym, ◌∙◌, some, List, [], ◌∷◌, ◌++◌, ◌==◌, arith, length,
  get_elem?, map, if◌then◌else◌,
}
use mathlib.Core.List.{reverse, reverse_aux, append-nil, append_assoc}
use mediawiki_php_excimer.Run.{ok}
use mediawiki_php_excimer.Zend.{HashApi}
use mediawiki_php_excimer.Log.{Frame, Entry, Log}
use mediawiki_php_excimer.Log.Valid.{IsValid, All}
use mediawiki_php_excimer.Log.Walk.{Visits, Walks-total}
use mediawiki_php_excimer.Log.Trace.{Zval}
use mediawiki_php_excimer.Log.Speedscope.{
  frame_to_speedscope_array, Shared, fill_stack, Sampled, sample_entry, sample_entries,
}
use mediawiki_php_excimer.Log.Speedscope.Frames.{Maps}

-- The timestamp of the last entry.
abbrev pub last_time : ℕ → List Entry → ℕ
last_time t [] = t
last_time t (e ∷ es) = last_time e.timestamp es

-- And of the first.
abbrev pub first_time : ℕ → List Entry → ℕ
first_time t [] = t
first_time t (e ∷ es) = e.timestamp

module _ ⦃Z : HashApi⦄ where
  -- Under each index stands the array of the frame.
  abbrev pub Points : List (Z.Table Zval) → List Frame → List ℕ → Type 0
  Points arrays [] [] = Unit
  Points arrays [] (k ∷ ks) = ⊥
  Points arrays (f ∷ fs) [] = ⊥
  Points arrays (f ∷ fs) (k ∷ ks) =
      ((array : Z.Table Zval) × (get_elem? arrays k ≡ some array)
        × (frame_to_speedscope_array f ≡ ok array))
      × Points arrays fs ks

  -- The sample is the backtrace from the outermost frame.
  pub record Stack (frames : List Frame) (arrays : List (Z.Table Zval)) (entry : Entry)
      (sample : List ℕ) : Type 0 where
    pub trace : List Frame
    pub indexes : List ℕ
    pub visits : Visits frames entry.frame_index trace
    pub points : Points arrays trace indexes
    pub outermost_first : sample ≡ reverse indexes

  abbrev pub Stacks : List Frame → List (Z.Table Zval) → List Entry → List (List ℕ) → Type 0
  Stacks frames arrays [] [] = Unit
  Stacks frames arrays [] (x ∷ samples) = ⊥
  Stacks frames arrays (e ∷ entries) [] = ⊥
  Stacks frames arrays (e ∷ entries) (x ∷ samples) =
      Stack frames arrays e x × Stacks frames arrays entries samples

  fill_stack-Points :
      (frames : List Frame) (s : Shared) (i : ℕ) (fs : List Frame) (stack : List ℕ)
      → Maps frames s
      → Visits frames i fs
      → (ks : List ℕ) × Points s.frames fs ks
        × (fill_stack frames s.frame_indexes (length fs) i stack ≡ ok (reverse_aux ks stack))
  unfolding fill_stack
  fill_stack-Points frames s i [] stack m v = ([], tt, refl)
  fill_stack-Points frames s i (f ∷ fs) stack m (found, before, rest) =
      let r = m.resolved i f (omega arith) found in
      let (ks, points, filled) =
        fill_stack-Points frames s f.prev_index fs (r.index ∷ stack) m rest in
      (r.index ∷ ks, ((r.array, r.there, r.prints.has_array), points), rw (r.place, found) filled)

  -- What the loop has added.
  pub record Adds (log : Log Z) (arrays : List (Z.Table Zval)) (i : ℕ) (entries : List Entry)
      (s s' : Sampled) : Type 0 where
    pub samples : List (List ℕ)
    pub stacks : Stacks log.frames arrays entries samples
    pub all_samples : s'.samples ≡ s.samples ++ samples
    pub all_weights :
        s'.weights ≡ s.weights ++ map (λ (e : Entry). e.event_count * log.period % 2 ^ 64) entries
    pub first :
        s'.first_timestamp
        ≡ (if i == 0 then first_time s.first_timestamp entries else s.first_timestamp)
    pub last : s'.last_timestamp ≡ last_time s.last_timestamp entries

  sample_entry-Stack :
      (log : Log Z) (shared : Shared) (i : ℕ) (entry : Entry) (s : Sampled)
      → IsValid log
      → Maps log.frames shared
      → entry.frame_index < length log.frames
      → (sample : List ℕ) × Stack log.frames shared.frames entry sample
        × (sample_entry log shared.frame_indexes i entry s
            ≡ ok (record {
              samples = s.samples ++ sample ∷ [];
              weights = s.weights ++ (entry.event_count * log.period % 2 ^ 64) ∷ [];
              first_timestamp = if i == 0 then entry.timestamp else s.first_timestamp;
              last_timestamp = entry.timestamp;
            }))
  unfolding sample_entry
  sample_entry-Stack log shared i entry s v m inside =
      let (fs, walks) = Walks-total log entry.frame_index v inside in
      let (ks, points, filled) =
        fill_stack-Points log.frames shared entry.frame_index fs [] m walks.visits in
      (
        reverse ks,
        record {
          trace = fs;
          indexes = ks;
          visits = walks.visits;
          points = points;
          outermost_first = refl;
        },
        rw (walks.count, filled),
      )

  pub sample_entries-Adds :
      (log : Log Z) (shared : Shared) (i : ℕ) (entries : List Entry) (s : Sampled)
      → IsValid log
      → Maps log.frames shared
      → All (λ (e : Entry). e.frame_index < length log.frames) entries
      → (s' : Sampled) × (sample_entries log shared.frame_indexes i entries s ≡ ok s')
        × Adds log shared.frames i entries s s'
  unfolding sample_entries
  sample_entries-Adds log shared i [] s v m inside = (
    s,
    refl,
    record {
      samples = [];
      stacks = tt;
      all_samples = sym (append-nil s.samples);
      all_weights = sym (append-nil s.weights);
      first = ground arith;
      last = refl;
    },
  )
  sample_entries-Adds log shared i (e ∷ es) s v m inside =
      let (sample, stack, step) = sample_entry-Stack log shared i e s v m inside.0 in
      let s1 : Sampled = record {
        samples = s.samples ++ sample ∷ [];
        weights = s.weights ++ (e.event_count * log.period % 2 ^ 64) ∷ [];
        first_timestamp = if i == 0 then e.timestamp else s.first_timestamp;
        last_timestamp = e.timestamp;
      } in
      let (s2, rest, a) = sample_entries-Adds log shared (i + 1) es s1 v m inside.1 in
      (
        s2,
        rw step rest,
        record {
          samples = sample ∷ a.samples;
          stacks = (stack, a.stacks);
          all_samples = a.all_samples ∙ append_assoc s.samples (sample ∷ []) a.samples;
          all_weights = a.all_weights ∙ append_assoc s.weights _ _;
          first = let f = a.first in ground arith;
          last = a.last;
        },
      )
