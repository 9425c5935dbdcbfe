-- ===== src/Log/Speedscope/Data.antt =====
-- The whole of the speedscope data of a valid log.
use mediawiki_php_excimer.Prelude.{
  ℕ, zero, suc, ◌+◌, ◌-◌, ◌*◌, ◌%◌, ◌^◌, ◌<◌, ◌≡◌, refl, sym, ◌∙◌, none, some, List, [], ◌∷◌, arith,
  get_elem?, map,
}
use mathlib.Core.Path.{subst}
use mediawiki_php_excimer.Run.{ok}
use mediawiki_php_excimer.Zend.{HashApi, str, find-new}
use mediawiki_php_excimer.Log.{Frame, Entry, Log}
use mediawiki_php_excimer.Log.Key.{codes}
use mediawiki_php_excimer.Log.Name.Plain.{HasFile}
use mediawiki_php_excimer.Log.Valid.{IsValid, All}
use mediawiki_php_excimer.Log.Speedscope.{
  Profile, tail_of, sampled_profile, Shared, build_frames, SpeedscopeData, get_speedscope_data,
}
use mediawiki_php_excimer.Log.Speedscope.Frames.{Maps, share_frames-Maps}
use mediawiki_php_excimer.Log.Speedscope.Samples.{
  last_time, first_time, Stacks, sample_entries-Adds,
}

All-of-index {ℓ κ} :
    {A : Type ℓ} (P : A → Type κ) (xs : List A)
    → ((i : ℕ) (a : A) → get_elem? xs i ≡ some a → P a)
    → All P xs
All-of-index P [] h = tt
All-of-index P (x ∷ xs) h = (h 0 x refl, All-of-index P xs (λ i a e. h (suc i) a e))

head-tail_of :
    (frames : List Frame) (f : Frame) → get_elem? frames 0 ≡ some f → f ∷ tail_of frames ≡ frames
head-tail_of [] f h = absurd (cc)
head-tail_of (g ∷ frames) f h = cc

none_after_head : (f g : Frame) (i : ℕ) → 0 < i → get_elem? (f ∷ []) i ≡ some g → ⊥
none_after_head f g zero h e = omega arith
none_after_head f g (suc i) h e = cc

get_elem?-tail_of :
    (frames : List Frame) (i : ℕ) → get_elem? (tail_of frames) i ≡ get_elem? frames (suc i)
get_elem?-tail_of [] i = refl
get_elem?-tail_of (g ∷ frames) i = refl

module _ ⦃Z : HashApi⦄ where
  -- What the data holds: in the one profile a sample and a weight for each entry, and a duration.
  pub record Profiled (log : Log Z) (data' : SpeedscopeData) : Type 0 where
    pub profile : Profile
    pub only : data'.profiles ≡ profile ∷ []
    pub stacks : Stacks log.frames data'.frames log.entries profile.samples
    pub weights :
        profile.weights ≡ map (λ (e : Entry). e.event_count * log.period % 2 ^ 64) log.entries
    pub duration :
        profile.end_value ≡ (last_time 0 log.entries + (2 ^ 64 - first_time 0 log.entries)) % 2 ^ 64

  build_frames-Maps :
      (log : Log Z) → IsValid log → (s : Shared) × (build_frames log ≡ ok s) × Maps log.frames s
  unfolding build_frames
  build_frames-Maps log v =
      let files : All HasFile (tail_of log.frames) =
        All-of-index HasFile (tail_of log.frames) (λ i f e.
          let is_frame =
            v.linked (suc i) f (omega arith) (sym (get_elem?-tail_of log.frames i) ∙ e) in
          (is_frame.file, is_frame.has_file)) in
      let start : Shared = record {
        frames = [];
        indexes_by_key = Z.new ℕ;
        frame_indexes = 0 ∷ [];
      } in
      let (s, shared, m) = share_frames-Maps (_ ∷ []) (tail_of log.frames) start files (record {
        size = refl;
        resolved = λ i f positive e. absurd (none_after_head _ f i positive e);
        keyed = λ key index e. absurd (
            let missing : Z.find (Z.new ℕ) (str key) ≡ none = find-new (str key) in
            let clash : some index ≡ none = sym e ∙ missing in cc);
      }) in
      (s, shared, subst (λ fs. Maps fs s) (head-tail_of log.frames _ v.zeroth) m)

  -- On a valid log the data is built without a fault: the sample of each entry gives, the outermost
  -- first, indexes under which the shared frames hold exactly the arrays of the frames of its
  -- backtrace, its weight is the number of its events times the period, modulo 2^64, and the end
  -- value is the time from the first entry to the last.
  pub get_speedscope_data-Profiled :
      (log : Log Z)
      → IsValid log
      → (d : SpeedscopeData) × (get_speedscope_data log ≡ ok d) × Profiled log d
  unfolding get_speedscope_data sampled_profile
  get_speedscope_data-Profiled log v =
      let (shared, built, m) = build_frames-Maps log v in
      let (sampled, done, a) =
        sample_entries-Adds log shared 0 log.entries
          (record { samples = []; weights = []; first_timestamp = 0; last_timestamp = 0 }) v m
          v.sampled in
      let profile : Profile = sampled_profile sampled in
      (
        record {
          schema = codes "https://www.speedscope.app/file-format-schema.json";
          exporter = codes "Excimer";
          frames = shared.frames;
          profiles = profile ∷ [];
        },
        rw (built, done),
        record {
          profile = profile;
          only = refl;
          stacks =
              subst (λ ss. Stacks log.frames shared.frames log.entries ss) (sym a.all_samples)
                a.stacks;
          weights = a.all_weights;
          duration = rw (a.first, a.last);
        },
      )
