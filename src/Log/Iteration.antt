-- ===== src/Log/Iteration.antt =====
-- A loop over an ExcimerLog visits its entries once each, in order.
use mediawiki_php_excimer.Prelude.{
  ℕ, zero, suc, ◌+◌, ◌<◌, ◌≡◌, refl, true, Option, none, some, List, [], ◌∷◌, arith, length, ltb,
  if◌then◌else◌, get_elem?_total, get_elem?, map,
}
use mediawiki_php_excimer.Prelude.Int.{pos}
use mediawiki_php_excimer.Run.{Run, ok, out_of_fuel, ◌>>=◌}
use mediawiki_php_excimer.Zend.{HashApi}
use mediawiki_php_excimer.Log.Trace.{Zval, frame_to_array}
use mediawiki_php_excimer.Log.Valid.{IsValid, All}
use mediawiki_php_excimer.Log.Walk.{Walks-total}
use mediawiki_php_excimer.Log.{Entry, Log, get_entry}
use mediawiki_php_excimer.Log.Object.{
  LogObject, LogIterator, init_entry, current, key, next, rewind, valid, get_iterator,
  iterator_valid, iterator_get_current_data, iterator_get_current_key, iterator_move_forward,
  iterator_rewind, offset_exists, offset_get, get_event_count, get_trace,
}

-- Key and entry of `n` visits from index `i` on.
abbrev pub visits : ℕ → ℕ → List (Option ℕ × Option ℕ)
visits i zero = []
visits i (suc n) = (some i, some i) ∷ visits (i + 1) n

module _ ⦃Z : HashApi⦄ where
  -- The loop of a client: the key and the value of each round.
  unfoldable pub iterate : ℕ → LogObject Z → Run (List (Option ℕ × Option ℕ))
  iterate zero obj = out_of_fuel
  iterate (suc fuel) obj =
      let rest = iterate fuel (next (current obj).1) in
      if valid obj then rest >>= (λ more. ok ((key obj, (current obj).0) ∷ more)) else ok []

  -- The loop of foreach.
  unfoldable pub foreach : ℕ → Log Z → LogIterator → Run (List (Option ℕ × Option ℕ))
  foreach zero log it = out_of_fuel
  foreach (suc fuel) log it =
      let rest =
        foreach fuel log (iterator_move_forward log (iterator_get_current_data log it).1) in
      if iterator_valid log it
      then rest >>= (λ more.
        ok ((iterator_get_current_key log it, (iterator_get_current_data log it).0) ∷ more))
      else ok []

  init_entry-some : (log : Log Z) (i : ℕ) → i < length log.entries → init_entry log i ≡ some i
  unfolding init_entry get_entry
  init_entry-some log i h = let (e, found) = get_elem?_total log.entries i h in ground arith

  foreach_from :
      (n fuel i : ℕ) (log : Log Z)
      → i + n ≡ length log.entries
      → n < fuel
      → foreach fuel log (record { z_current = none; index = i }) ≡ ok (visits i n)
  unfolding foreach iterator_valid iterator_move_forward iterator_get_current_data
      iterator_get_current_key
  foreach_from n zero i log h few = absurd (omega arith)
  foreach_from zero (suc fuel) i log h few = ground arith
  foreach_from (suc n) (suc fuel) i log h few =
      let e = init_entry-some log i (omega arith) in
      let rest = foreach_from n fuel (i + 1) log (omega arith) (omega arith) in
      let here : ltb i (length log.entries) ≡ true = ground arith in simp (here, e, rest)

  iterate_from :
      (n fuel i : ℕ) (log : Log Z)
      → i + n ≡ length log.entries
      → n < fuel
      → iterate fuel (record { log = log; z_current = none; iter_entry_index = i })
        ≡ ok (visits i n)
  unfolding iterate valid next current key
  iterate_from n zero i log h few = absurd (omega arith)
  iterate_from zero (suc fuel) i log h few = ground arith
  iterate_from (suc n) (suc fuel) i log h few =
      let e = init_entry-some log i (omega arith) in
      let rest = iterate_from n fuel (i + 1) log (omega arith) (omega arith) in
      let here : ltb i (length log.entries) ≡ true = ground arith in simp (here, e, rest)

  -- foreach over a log ends, and visits each of its entries once, in order, under its index, from
  -- a new iterator and from a rewound one alike.
  pub foreach-visits :
      (fuel : ℕ) (log : Log Z) (it : LogIterator)
      → length log.entries < fuel
      → (foreach fuel log get_iterator ≡ ok (visits 0 (length log.entries)))
        × (foreach fuel log (iterator_rewind it) ≡ ok (visits 0 (length log.entries)))
  unfolding iterator_rewind
  foreach-visits fuel log it h =
      let all = foreach_from (length log.entries) fuel 0 log (omega arith) h in (all, all)

  -- A loop by the methods of a log, after a rewind, ends, and visits each of its entries once, in
  -- order, under its index.
  pub iterate-visits :
      (fuel : ℕ) (obj : LogObject Z)
      → length obj.log.entries < fuel
      → iterate fuel (rewind obj) ≡ ok (visits 0 (length obj.log.entries))
  unfolding rewind
  iterate-visits fuel obj h = iterate_from (length obj.log.entries) fuel 0 obj.log (omega arith) h

  All-get_elem :
      (n : ℕ) (es : List Entry) (i : ℕ) (e : Entry)
      → All (λ (x : Entry). x.frame_index < n) es
      → get_elem? es i ≡ some e
      → e.frame_index < n
  All-get_elem n [] i e h found = absurd (cc)
  All-get_elem n (x ∷ es) zero e h found = let same : x ≡ e = cc in let k = h.0 in ground arith
  All-get_elem n (x ∷ es) (suc i) e h found = All-get_elem n es i e h.1 found

  -- In a valid log the entry at an offset inside the log exists, is the one at this index, and its
  -- event count and its trace can be read.
  pub offset_get-readable :
      (log : Log Z) (i : ℕ)
      → IsValid log
      → i < length log.entries
      → (offset_exists log (pos i) ≡ true)
        × (offset_get log (pos i) ≡ some i)
        × ((e : Entry) × (get_elem? log.entries i ≡ some e)
            × (get_event_count log i ≡ ok e.event_count)
            × ((trace : List (Z.Table Zval)) × (get_trace log i ≡ ok trace)))
  unfolding offset_exists offset_get get_event_count get_trace get_entry
  offset_get-readable log i v h =
      let (e, found) = get_elem?_total log.entries i h in
      let inside = All-get_elem (length log.frames) log.entries i e v.sampled found in
      let (fs, walks) = Walks-total log e.frame_index v inside in
      let some_entry = init_entry-some log i h in
      let entry_found : get_entry log (pos i) ≡ some e = ground arith in
      (
        ground arith,
        ground arith,
        (e, found, rw entry_found refl, (map frame_to_array fs, rw entry_found walks.trace)),
      )
