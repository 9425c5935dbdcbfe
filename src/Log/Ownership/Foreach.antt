-- ===== src/Log/Ownership/Foreach.antt =====
-- A loop over a log gives its references back; a kept entry holds its log.
use mediawiki_php_excimer.Prelude.{
  ℕ, zero, suc, ◌+◌, ◌-◌, ◌<◌, ◌≡◌, refl, true, false, none, some, List, [], arith, ◌==◌, ==_iff,
  length, ltb, get_elem?_total,
}
use mediawiki_php_excimer.Run.{ok}
use mediawiki_php_excimer.Zend.{HashApi}
use mediawiki_php_excimer.Zend.Objects.{ObjectApi}
use mediawiki_php_excimer.Timer.{update}
use mediawiki_php_excimer.Log.{Log, get_entry}
use mediawiki_php_excimer.Log.Ownership.{
  create_entry, release_entry, fill, move_forward, iterator_dtor, open_iterator, current_method,
  foreach_from, foreach_loop,
}
use mediawiki_php_excimer.Log.Ownership.Owned.{
  Owned, Owned-ext, copy-Owned, release-kept, release_entry-kept, new_entry-ne_log, create-Owned,
  release-Owned, used_once-Owned,
}

module _ ⦃Z : HashApi⦄ ⦃O : ObjectApi⦄ (log : Log Z) (z_log : ℕ) where
  fill-new :
      (i : ℕ) (h : O.Heap)
      → i < length log.entries
      → fill log z_log (record { z_current = none; index = i }) h
        ≡ (record { z_current = some (O.create h).0; index = i }, O.copy (O.create h).1 z_log)
  unfolding fill create_entry get_entry
  fill-new i h lt = let (e, found) = get_elem?_total log.entries i lt in ground arith

  -- One round of the loop.
  round-move_forward :
      (i : ℕ) (h h' : O.Heap)
      → i < length log.entries
      → release_entry z_log (some (O.create h).0) (O.copy (O.create h).1 z_log) ≡ ok (false, h')
      → let filled = fill log z_log (record { z_current = none; index = i }) h in
        move_forward log z_log filled.0 filled.1
        ≡ ok (record { z_current = none; index = i + 1 }, h')
  unfolding move_forward
  round-move_forward i h h' lt e =
      let inside : ltb i (length log.entries) ≡ true = ground arith in
      rw (fill-new i h lt, e, inside) refl

  from-Owned :
      (n fuel i : ℕ) (own : ℕ → ℕ) (live : List ℕ) (h : O.Heap)
      → Owned z_log own live h
      → 1 < own z_log
      → i + n ≡ length log.entries
      → n < fuel
      → (h' : O.Heap) × (foreach_from log z_log fuel (record { z_current = none; index = i }) h
          ≡ ok (false, h'))
        × Owned z_log (update own z_log (own z_log - 1)) live h'
  unfolding foreach_from iterator_dtor release_entry
  from-Owned n zero i own live h w held len few = absurd (omega arith)
  from-Owned zero (suc fuel) i own live h w held len few =
      let (h', e, after) = release-Owned z_log own live h w held in
      let at_end : ltb i (length log.entries) ≡ false = ground arith in
      (h', rw (at_end, e) refl, after)
  from-Owned (suc n) (suc fuel) i own live h w held len few =
      let inside : ltb i (length log.entries) ≡ true = ground arith in
      let (h1, e1, w1) = used_once-Owned z_log own live h w (omega arith) in
      let (h', e', after) =
        from-Owned n fuel (i + 1) own live h1 w1 held (omega arith) (omega arith) in
      (h', rw (inside, round-move_forward i h h1 (omega arith) e1) e', after)

  -- While the script holds a log, a foreach loop over it whose body keeps no entry ends, frees every
  -- entry that it has made, and gives back every reference: the counts are what they were.
  pub foreach_loop-Owned :
      (own : ℕ → ℕ) (live : List ℕ) (h : O.Heap) (fuel : ℕ)
      → Owned z_log own live h
      → 0 < own z_log
      → length log.entries < fuel
      → (h' : O.Heap) × (foreach_loop log z_log fuel h ≡ ok (false, h')) × Owned z_log own live h'
  unfolding foreach_loop open_iterator
  foreach_loop-Owned own live h fuel w held few =
      let opened = copy-Owned z_log own live h w in
      let here : (z_log == z_log) ≡ true = (==_iff z_log z_log).1 refl in
      let own' = update own z_log (own z_log + 1) in
      let (h', e, after) =
        from-Owned (length log.entries) fuel 0 own' live (O.copy h z_log) opened (ground arith)
          (omega arith) few in
      (
        h',
        e,
        Owned-ext z_log (update own' z_log (own' z_log - 1)) own live h' (λ k. ground arith) after,
      )

  -- ExcimerLog::current at a valid position, where nothing is cached, leaves a cycle: the log keeps
  -- the entry, which keeps the log. When the script has dropped the reference that it got, and all of
  -- its references to the log, both still count one, so neither is freed.
  pub current_method-Cycle :
      (h : O.Heap) (i : ℕ)
      → Owned z_log (update (λ k. 0) z_log 1) [] h
      → i < length log.entries
      → (e : ℕ) × (h1 h2 h3 : O.Heap) × (current_method log z_log
            (record { z_current = none; index = i })
            h
          ≡ (record { z_current = some e; index = i }, h1))
        × (release_entry z_log (some e) h1 ≡ ok (false, h2))
        × (O.zval_ptr_dtor h2 z_log ≡ ok (false, h3))
        × (O.refs h3 z_log ≡ 1)
        × (O.refs h3 e ≡ 1)
  unfolding current_method
  current_method-Cycle h i w lt =
      let own : ℕ → ℕ = update (λ k. 0) z_log 1 in
      let here : (z_log == z_log) ≡ true = (==_iff z_log z_log).1 refl in
      let e = (O.create h).0 in
      let hc = O.copy (O.create h).1 z_log in
      let other = new_entry-ne_log z_log own [] h w (ground arith) in
      let made = create-Owned z_log own [] h w (ground arith) in
      let of_log : O.refs hc z_log ≡ 2 = ground (arith, made.log_refs) in
      let of_entry : O.refs hc e ≡ 1 = ground (arith, made.entry_refs e other, ==_iff e e) in
      let h1 = O.copy hc e in
      let two : O.refs h1 e ≡ 2 = ground (arith, O.refs-copy hc e e, ==_iff e e) in
      let (h2, e2, c2) = release_entry-kept z_log h1 e (omega arith) in
      let log_kept : O.refs h2 z_log ≡ 2 = ground (arith, c2 z_log, O.refs-copy hc e z_log) in
      let (h3, e3, c3) = release-kept h2 z_log (omega arith) in
      (
        e,
        h1,
        h2,
        h3,
        rw (fill-new i h lt) refl,
        e2,
        e3,
        ground (arith, c3 z_log),
        ground (arith, c3 e, c2 e, ==_iff e e),
      )
