-- ===== src/Log/Object.antt =====
-- The PHP object ExcimerLog of excimer.c as an iterator and as an array, and the iterator that foreach
-- takes. An ExcimerLogEntry is the index that it holds, and PHP's null is `none`. Both belong to one log,
-- which a profiler may extend between the calls.
use mediawiki_php_excimer.Prelude.{
  ℕ, ◌+◌, ◌-◌, ◌%◌, ◌^◌, Bool, true, false, not, ◌&&◌, ◌||◌, List, Option, none, some, length, ltb,
  if◌then◌else◌,
}
use mediawiki_php_excimer.Prelude.Int.{ℤ, pos, pos_part, ltb_ℤ}
use mediawiki_php_excimer.Zend.{HashApi}
use mediawiki_php_excimer.Run.{Run, ok, ◌>>=◌}
use mediawiki_php_excimer.Timespec.Double.{DoubleApi}
use mediawiki_php_excimer.Log.Name.{deref}
use mediawiki_php_excimer.Log.Trace.{Zval, trace_to_array}
use mediawiki_php_excimer.Log.{Entry, Log, get_entry, init}

-- `z_current` is the cached entry.
pub record LogObject (Z : HashApi) : Type 0 where
  pub log : Log Z
  pub z_current : Option ℕ
  pub iter_entry_index : ℕ

-- An ExcimerLog_iterator; its log is an argument of the functions.
pub record LogIterator : Type 0 where
  pub z_current : Option ℕ
  pub index : ℕ

abbrev is_null : Option ℕ → Bool
is_null none = true
is_null (some i) = false

abbrev entry_or_null : Option Entry → ℕ → Option ℕ
entry_or_null none i = none
entry_or_null (some e) i = some i

module _ ⦃Z : HashApi⦄ where
  unfoldable pub init_entry : Log Z → ℕ → Option ℕ
  init_entry log i = entry_or_null (get_entry log (pos i)) i

  -- The object of a new log, at the memory `log`.
  unfoldable pub new_object : Log Z → LogObject Z
  new_object log = record { log = init log; z_current = none; iter_entry_index = 0 }

  unfoldable pub current : LogObject Z → Option ℕ × LogObject Z
  current obj =
      if is_null obj.z_current && ltb obj.iter_entry_index (length obj.log.entries)
      then (let z = init_entry obj.log obj.iter_entry_index in (z, record obj { z_current = z }))
      else (obj.z_current, obj)

  unfoldable pub key : LogObject Z → Option ℕ
  key obj =
      if ltb obj.iter_entry_index (length obj.log.entries) then some obj.iter_entry_index else none

  unfoldable pub next : LogObject Z → LogObject Z
  next obj = record obj {
    z_current = none;
    iter_entry_index =
        if ltb obj.iter_entry_index (length obj.log.entries)
        then obj.iter_entry_index + 1
        else obj.iter_entry_index;
  }

  unfoldable pub rewind : LogObject Z → LogObject Z
  rewind obj = record obj { z_current = none; iter_entry_index = 0 }

  unfoldable pub valid : LogObject Z → Bool
  valid obj = ltb obj.iter_entry_index (length obj.log.entries)

  unfoldable pub count_elements : LogObject Z → ℕ
  count_elements obj = length obj.log.entries

  -- The functions of the iterator that foreach takes.
  abbrev pub get_iterator : LogIterator
  get_iterator = record { z_current = none; index = 0 }

  unfoldable pub iterator_valid : Log Z → LogIterator → Bool
  iterator_valid log it = ltb it.index (length log.entries)

  -- The cached value, made at the first call; NULL at the end.
  unfoldable pub iterator_get_current_data : Log Z → LogIterator → Option ℕ × LogIterator
  iterator_get_current_data log it =
      if is_null it.z_current && ltb it.index (length log.entries)
      then (let z = init_entry log it.index in (z, record it { z_current = z }))
      else (it.z_current, it)

  unfoldable pub iterator_get_current_key : Log Z → LogIterator → Option ℕ
  iterator_get_current_key log it =
      if ltb it.index (length log.entries) then some it.index else none

  unfoldable pub iterator_move_forward : Log Z → LogIterator → LogIterator
  iterator_move_forward log it = record {
    z_current = none;
    index = if ltb it.index (length log.entries) then it.index + 1 else it.index;
  }

  unfoldable pub iterator_rewind : LogIterator → LogIterator
  iterator_rewind it = record { z_current = none; index = 0 }

  unfoldable pub iterator_invalidate_current : LogIterator → LogIterator
  iterator_invalidate_current it = record it { z_current = none }

  -- The log as an array: ExcimerLog::offsetExists and ExcimerLog::offsetGet.
  unfoldable pub offset_exists : Log Z → ℤ → Bool
  offset_exists log offset = not (ltb_ℤ offset (pos 0)) && ltb_ℤ offset (pos (length log.entries))

  unfoldable pub offset_get : Log Z → ℤ → Option ℕ
  offset_get log offset =
      if ltb_ℤ offset (pos 0) || not (ltb_ℤ offset (pos (length log.entries)))
      then none
      else init_entry log (pos_part offset)

  -- ExcimerLogEntry::getEventCount and ExcimerLogEntry::getTrace of the entry at an index.
  unfoldable pub get_event_count : Log Z → ℕ → Run ℕ
  get_event_count log index = do e ← deref (get_entry log (pos index)); ok e.event_count

  -- ExcimerLogEntry::getTimestamp: the seconds since the epoch of the log.
  unfoldable pub get_timestamp : ⦃D : DoubleApi⦄ → Log Z → ℕ → Run D.Double
  get_timestamp ⦃D = D⦄ log index = do
    e ← deref (get_entry log (pos index))
    ok (D.over_billion ((e.timestamp + (2 ^ 64 - log.epoch)) % 2 ^ 64))

  unfoldable pub get_trace : Log Z → ℕ → Run (List (Z.Table Zval))
  get_trace log index = do
    e ← deref (get_entry log (pos index))
    trace_to_array log (pos e.frame_index)
