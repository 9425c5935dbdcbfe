-- ===== src/Log/Ownership.antt =====
-- The references between the objects of excimer.c that belong to one log: the ExcimerLog, its entries
-- and the iterators. The same functions as in Object, on the heap of objects; an entry object refers to
-- the log.
pub mod Owned
pub mod Foreach
use mediawiki_php_excimer.Prelude.{
  ℕ, zero, suc, ◌+◌, Bool, true, false, ◌||◌, ◌&&◌, Option, none, some, length, ltb, if◌then◌else◌,
}
use mediawiki_php_excimer.Prelude.Int.{pos}
use mediawiki_php_excimer.Run.{Run, ok, out_of_fuel, ◌>>=◌}
use mediawiki_php_excimer.Zend.{HashApi}
use mediawiki_php_excimer.Zend.Objects.{ObjectApi}
use mediawiki_php_excimer.Zend.Strings.{StringApi}
use mediawiki_php_excimer.Log.{Entry, Log, get_entry}
use mediawiki_php_excimer.Log.Strings.{destroy}

-- An iterator, of foreach or of the log itself: the handle of the cached entry, and the position.
pub record Cursor : Type 0 where
  pub z_current : Option ℕ
  pub index : ℕ

abbrev pub is_null : Option ℕ → Bool
is_null none = true
is_null (some e) = false

abbrev pub at_start : Cursor
at_start = record { z_current = none; index = 0 }

-- `z_log` is the handle of the log.
module _ ⦃O : ObjectApi⦄ (z_log : ℕ) where
  -- ExcimerLogEntry_free_object; `true` says that the log has lost its last reference.
  unfoldable pub free_entry : O.Heap → Run (Bool × O.Heap)
  free_entry h = O.zval_ptr_dtor h z_log

  -- zval_ptr_dtor of an entry.
  unfoldable pub release_entry : Option ℕ → O.Heap → Run (Bool × O.Heap)
  release_entry none h = ok (false, h)
  release_entry (some e) h = do
    (last, h') ← O.zval_ptr_dtor h e
    if last then free_entry h' else ok (false, h')

  -- ExcimerLog_get_iterator, of an iterator by value.
  unfoldable pub open_iterator : O.Heap → Cursor × O.Heap
  open_iterator h = (at_start, O.copy h z_log)

  -- With its test: an iterator by reference is refused by an exception, which is `none`.
  unfoldable pub iterator_for : (by_ref : Bool) → O.Heap → Option Cursor × O.Heap
  iterator_for true h = (none, h)
  iterator_for false h = (let r = open_iterator h in (some r.0, r.1))

  -- ExcimerLog_iterator_dtor.
  unfoldable pub iterator_dtor : Cursor → O.Heap → Run (Bool × O.Heap)
  iterator_dtor it h = do
    (last, h1) ← release_entry it.z_current h
    (last', h2) ← O.zval_ptr_dtor h1 z_log
    ok (last || last', h2)

module _ ⦃Z : HashApi⦄ ⦃O : ObjectApi⦄ (log : Log Z) (z_log : ℕ) where
  abbrev new_entry : Option Entry → O.Heap → Option ℕ × O.Heap
  new_entry none h = (none, h)
  new_entry (some x) h = (some (O.create h).0, O.copy (O.create h).1 z_log)

  -- ExcimerLog_init_entry.
  unfoldable pub create_entry : ℕ → O.Heap → Option ℕ × O.Heap
  create_entry index h = new_entry (get_entry log (pos index)) h

  -- ExcimerLog_iterator_get_current_data.
  unfoldable pub fill : Cursor → O.Heap → Cursor × O.Heap
  fill it h =
      if is_null it.z_current && ltb it.index (length log.entries)
      then (let r = create_entry it.index h in (record it { z_current = r.0 }, r.1))
      else (it, h)

  -- ExcimerLog_iterator_move_forward, and ExcimerLog::next.
  unfoldable pub move_forward : Cursor → O.Heap → Run (Cursor × O.Heap)
  move_forward it h = do
    (last, h') ← release_entry z_log it.z_current h
    ok (
      record {
        z_current = none;
        index = if ltb it.index (length log.entries) then it.index + 1 else it.index;
      },
      h',
    )

  abbrev return_copy : Option ℕ → O.Heap → O.Heap
  return_copy none h = h
  return_copy (some e) h = O.copy h e

  -- ExcimerLog::current, which returns a copy of the reference that the log keeps.
  unfoldable pub current_method : Cursor → O.Heap → Cursor × O.Heap
  current_method c h = let r = fill c h in (r.0, return_copy r.0.z_current r.1)

  -- ExcimerLog_free_object, with the strings of the log.
  unfoldable pub free_object :
      ⦃S : StringApi⦄ → Cursor → S.Heap → O.Heap → Run (S.Heap × (Bool × O.Heap))
  free_object c strings h = do
    strings' ← destroy log strings
    r ← release_entry z_log c.z_current h
    ok (strings', r)

  -- The loop of foreach, whose body keeps no entry, cut short after `fuel` rounds.
  unfoldable pub foreach_from : ℕ → Cursor → O.Heap → Run (Bool × O.Heap)
  foreach_from zero it h = out_of_fuel
  foreach_from (suc fuel) it h =
      let rest = move_forward (fill it h).0 (fill it h).1 >>= λ r. foreach_from fuel r.0 r.1 in
      if ltb it.index (length log.entries) then rest else iterator_dtor z_log it h

  unfoldable pub foreach_loop : ℕ → O.Heap → Run (Bool × O.Heap)
  foreach_loop fuel h = foreach_from fuel (open_iterator z_log h).0 (open_iterator z_log h).1
