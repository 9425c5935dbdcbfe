-- ===== src/Log.antt =====
-- excimer_log.h and the object life cycle and accessors of excimer_log.c. An array and its size
-- field are one list; a `zend_long` counter is its 64-bit pattern.
pub mod Key
pub mod Sample
pub mod Valid
pub mod Register
pub mod Depth
pub mod Recorded
pub mod Again
pub mod Name
pub mod Trace
pub mod Walk
pub mod Collapsed
pub mod Roundtrip
pub mod Total
pub mod Add
pub mod Object
pub mod Aggregate
pub mod Speedscope
pub mod Iteration
pub mod Strings
pub mod Ownership
pub mod Methods
use mediawiki_php_excimer.Prelude.{
  ℕ, ◌≡◌, Bool, ◌&&◌, not, Option, none, some, List, [], ◌∷◌, ltb, length, get_elem?, if◌then◌else◌,
}
use mediawiki_php_excimer.Prelude.Int.{ℤ, pos, pos_part, ltb_ℤ}
use mediawiki_php_excimer.Bytes.{Bytes}
use mediawiki_php_excimer.Run.{Run, ok, fatal}
use mediawiki_php_excimer.Zend.{HashApi}

-- A unique location in the code and its backtrace. A NULL pointer is `none`.
pub record Frame : Type 0 where
  pub filename : Option Bytes
  pub lineno : ℕ
  pub closure_line : ℕ
  pub class_name : Option Bytes
  pub function_name : Option Bytes
  pub prev_index : ℕ

pub record Entry : Type 0 where
  pub frame_index : ℕ
  pub event_count : ℕ
  pub timestamp : ℕ

pub record Log (Z : HashApi) : Type 0 where
  pub entries : List Entry
  pub frames : List Frame
  -- from frame keys to frame indexes, which are `zend_long` values
  pub reverse_frames : Z.Table ℤ
  pub max_depth : ℤ
  pub epoch : ℕ
  pub period : ℕ
  pub event_count : ℕ

-- The frame that `ecalloc` leaves at index 0.
abbrev pub zero_frame : Frame
zero_frame = record {
  filename = none;
  lineno = 0;
  closure_line = 0;
  class_name = none;
  function_name = none;
  prev_index = 0;
}

-- A `zend_long` that must fit in a `uint32_t`.
unfoldable pub safe_uint32 : ℤ → Run ℕ
safe_uint32 i =
    if ltb_ℤ i (pos 0) then fatal else if ltb_ℤ (pos 0xffff_ffff) i then fatal else ok (pos_part i)

module _ ⦃Z : HashApi⦄ where
  -- The fields that are not assigned keep what the memory holds.
  unfoldable pub init : Log Z → Log Z
  init log = record log {
    entries = [];
    frames = zero_frame ∷ [];
    reverse_frames = Z.new ℤ;
    epoch = 0;
    event_count = 0;
  }

  unfoldable pub set_max_depth : Log Z → ℤ → Log Z
  set_max_depth log depth = record log { max_depth = depth }

  -- `copy_options dest src` is the new `dest`.
  unfoldable pub copy_options : Log Z → Log Z → Log Z
  copy_options dest src = record dest {
    max_depth = src.max_depth;
    epoch = src.epoch;
    period = src.period;
  }

  unfoldable pub get_size : Log Z → ℕ
  get_size log = length log.entries

  unfoldable pub get_entry : Log Z → ℤ → Option Entry
  get_entry log i =
      if not (ltb_ℤ i (pos 0)) && ltb_ℤ i (pos (length log.entries))
      then get_elem? log.entries (pos_part i)
      else none

  unfoldable pub get_frame : Log Z → ℤ → Option Frame
  get_frame log i =
      if ltb_ℤ (pos 0) i && ltb_ℤ i (pos (length log.frames))
      then get_elem? log.frames (pos_part i)
      else none
