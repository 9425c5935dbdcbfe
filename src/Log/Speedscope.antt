-- ===== src/Log/Speedscope.antt =====
-- excimer_log_get_speedscope_data of excimer_log.c, with excimer_log_frame_to_speedscope_array. The
-- arrays that are filled by zend_hash_next_index_insert are lists.
pub mod Prints
pub mod Frames
pub mod Samples
pub mod Data
use mediawiki_php_excimer.Prelude.{
  ℕ, zero, suc, ◌+◌, ◌-◌, ◌*◌, ◌%◌, ◌^◌, Bool, true, false, Option, none, some, List, [], ◌∷◌, ◌++◌,
  ◌==◌, length, get_elem?, if◌then◌else◌,
}
use mediawiki_php_excimer.Bytes.{Bytes}
use mediawiki_php_excimer.Run.{Run, ok, ◌>>=◌}
use mediawiki_php_excimer.Zend.{HashApi, str}
use mediawiki_php_excimer.Log.{Frame, Entry, Log}
use mediawiki_php_excimer.Log.Key.{codes}
use mediawiki_php_excimer.Log.Name.{deref, append_frame_name, get_speedscope_frame_key}
use mediawiki_php_excimer.Log.Trace.{Zval, string, add_string, count_frames}

-- The profile array: "type" is "sampled" and "unit" is "nanoseconds".
pub record Profile : Type 0 where
  pub profile_type : Bytes
  pub name : Bytes
  pub unit : Bytes
  pub start_value : ℕ
  pub end_value : ℕ
  pub samples : List (List ℕ)
  pub weights : List ℕ

abbrev pub tail_of : List Frame → List Frame
tail_of [] = []
tail_of (f ∷ fs) = fs

module _ ⦃Z : HashApi⦄ where
  unfoldable pub frame_to_speedscope_array : Frame → Run (Z.Table Zval)
  frame_to_speedscope_array frame = do
    name ← append_frame_name [] frame
    ok (
        add_string (Z.add (Z.new Zval) (str (codes "name")) (string name)) (codes "file")
          frame.filename)

  -- `ht_frames`, `ht_indexes_by_key` and the part of `lp_frame_indexes` that is written.
  pub record Shared : Type 0 where
    pub frames : List (Z.Table Zval)
    pub indexes_by_key : Z.Table ℕ
    pub frame_indexes : List ℕ

  -- The frame goes to the end, under its key.
  unfoldable pub new_shared : Bytes → Frame → Shared → Run Shared
  new_shared key frame s = do
    array ← frame_to_speedscope_array frame
    let index = length s.frames
    ok (record {
      frames = s.frames ++ array ∷ [];
      indexes_by_key = Z.add s.indexes_by_key (str key) index;
      frame_indexes = s.frame_indexes ++ index ∷ [];
    })

  unfoldable pub share_frame : Frame → Shared → Run Shared
  share_frame frame s = do
    key ← get_speedscope_frame_key frame
    elim (Z.find s.indexes_by_key (str key)) [
      | none ↦ new_shared key frame s
      | some index ↦ ok (record s { frame_indexes = s.frame_indexes ++ index ∷ [] })
    ]

  unfoldable pub share_frames : List Frame → Shared → Run Shared
  share_frames [] s = ok s
  share_frames (frame ∷ frames) s = do s' ← share_frame frame s; share_frames frames s'

  -- The loop over the frames from index 1; `ecalloc` leaves 0 at index 0.
  unfoldable pub build_frames : Log Z → Run Shared
  build_frames log =
      share_frames (tail_of log.frames)
        (record { frames = []; indexes_by_key = Z.new ℕ; frame_indexes = 0 ∷ [] })

  -- The array of a sample, written from its last element to its first.
  unfoldable pub fill_stack : List Frame → List ℕ → ℕ → ℕ → List ℕ → Run (List ℕ)
  fill_stack frames frame_indexes zero frame_index stack = ok stack
  fill_stack frames frame_indexes (suc n) frame_index stack = do
    index ← deref (get_elem? frame_indexes frame_index)
    frame ← deref (get_elem? frames frame_index)
    fill_stack frames frame_indexes n frame.prev_index (index ∷ stack)

  pub record Sampled : Type 0 where
    pub samples : List (List ℕ)
    pub weights : List ℕ
    pub first_timestamp : ℕ
    pub last_timestamp : ℕ

  unfoldable pub sample_entry : Log Z → List ℕ → ℕ → Entry → Sampled → Run Sampled
  sample_entry log frame_indexes i entry s = do
    num_frames ← count_frames log entry.frame_index
    stack ← fill_stack log.frames frame_indexes num_frames entry.frame_index []
    ok (record {
      samples = s.samples ++ stack ∷ [];
      weights = s.weights ++ (entry.event_count * log.period % 2 ^ 64) ∷ [];
      first_timestamp = if i == 0 then entry.timestamp else s.first_timestamp;
      last_timestamp = entry.timestamp;
    })

  unfoldable pub sample_entries : Log Z → List ℕ → ℕ → List Entry → Sampled → Run Sampled
  sample_entries log frame_indexes i [] s = ok s
  sample_entries log frame_indexes i (entry ∷ entries) s = do
    s' ← sample_entry log frame_indexes i entry s
    sample_entries log frame_indexes (i + 1) entries s'

  unfoldable pub sampled_profile : Sampled → Profile
  sampled_profile s = record {
    profile_type = codes "sampled";
    name = [];
    unit = codes "nanoseconds";
    start_value = 0;
    end_value = (s.last_timestamp + (2 ^ 64 - s.first_timestamp)) % 2 ^ 64;
    samples = s.samples;
    weights = s.weights;
  }

  pub record SpeedscopeData : Type 0 where
    pub schema : Bytes
    pub exporter : Bytes
    pub frames : List (Z.Table Zval)
    pub profiles : List Profile

  unfoldable pub get_speedscope_data : Log Z → Run SpeedscopeData
  get_speedscope_data log = do
    shared ← build_frames log
    sampled ←
        sample_entries log shared.frame_indexes 0 log.entries
          (record { samples = []; weights = []; first_timestamp = 0; last_timestamp = 0 })
    ok (record {
      schema = codes "https://www.speedscope.app/file-format-schema.json";
      exporter = codes "Excimer";
      frames = shared.frames;
      profiles = sampled_profile sampled ∷ [];
    })
