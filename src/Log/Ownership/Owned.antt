-- ===== src/Log/Ownership/Owned.antt =====
-- Who holds the references of a log and its entries.
use mediawiki_php_excimer.Prelude.{
  ℕ, ◌+◌, ◌-◌, ◌<◌, ◌≡◌, ◌≢◌, refl, sym, ap, ◌∙◌, inl, inr, true, false, some, List, [], ◌∷◌, arith,
  ◌==◌, ==_iff, Bool-cases, length, if◌then◌else◌,
}
use mediawiki_php_excimer.Run.{ok}
use mediawiki_php_excimer.Zend.Objects.{ObjectApi}
use mediawiki_php_excimer.Timer.{update}
use mediawiki_php_excimer.Timer.Ring.{mem, Distinct}
use mediawiki_php_excimer.Timer.Distinct.{erase}
use mediawiki_php_excimer.Log.Ownership.{release_entry, free_entry}

length-erase : (e : ℕ) (live : List ℕ) → mem e live ≡ true → length (erase e live) + 1 ≡ length live
unfolding mem erase
length-erase e [] h = cc
length-erase e (x ∷ live) h = ground (arith, length-erase e live)

mem-erase :
    (k e : ℕ) (live : List ℕ)
    → Distinct live
    → mem k (erase e live) ≡ (if k == e then false else mem k live)
unfolding mem erase
mem-erase k e [] d = ground arith
mem-erase k e (x ∷ live) d = let out = d.0 in ground (arith, mem-erase k e live d.1)

Distinct-erase : (e : ℕ) (live : List ℕ) → Distinct live → Distinct (erase e live)
unfolding mem erase
Distinct-erase e [] d = tt
Distinct-erase e (x ∷ live) d = elim (Bool-cases (x == e)) [
  | inl here ↦ rw here d.1
  | inr further ↦
      let out = d.0 in
      rw further (ground (arith, mem-erase x e live d.1), Distinct-erase e live d.1)
]

module _ ⦃O : ObjectApi⦄ where
  -- A release that leaves another reference.
  pub release-kept :
      (h : O.Heap) (o : ℕ)
      → 1 < O.refs h o
      → (h' : O.Heap) × (O.zval_ptr_dtor h o ≡ ok (false, h'))
        × ((k : ℕ) → O.refs h' k ≡ (if k == o then O.refs h k - 1 else O.refs h k))
  release-kept h o many =
      let (h', e, c) = O.zval_ptr_dtor-ok h o (omega arith) in
      let more : (O.refs h o == 1) ≡ false = ground arith in (h', rw (← more) e, c)

  pub release_entry-kept :
      (z_log : ℕ) (h : O.Heap) (e : ℕ)
      → 1 < O.refs h e
      → (h' : O.Heap) × (release_entry z_log (some e) h ≡ ok (false, h'))
        × ((k : ℕ) → O.refs h' k ≡ (if k == e then O.refs h k - 1 else O.refs h k))
  unfolding release_entry
  release_entry-kept z_log h e many =
      let (h', is_ok, c) = release-kept h e many in (h', rw is_ok refl, c)

module _ ⦃O : ObjectApi⦄ (z_log : ℕ) where
  -- `own k` counts the references to `k` of the script, the iterators and the caches; each of the
  -- living entries holds one to the log.
  pub record Owned (own : ℕ → ℕ) (live : List ℕ) (h : O.Heap) : Type 0 where
    pub log_refs : O.refs h z_log ≡ own z_log + length live
    pub entry_refs : (e : ℕ) → e ≢ z_log → O.refs h e ≡ own e
    pub dead : (e : ℕ) → e ≢ z_log → mem e live ≡ false → own e ≡ 0
    pub alive : (e : ℕ) → mem e live ≡ true → 0 < own e
    pub distinct : Distinct live
    pub apart : mem z_log live ≡ false

  pub Owned-ext :
      (own own' : ℕ → ℕ) (live : List ℕ) (h : O.Heap)
      → ((k : ℕ) → own' k ≡ own k)
      → Owned own live h
      → Owned own' live h
  Owned-ext own own' live h same w = record {
    log_refs = w.log_refs ∙ ap (λ n. n + length live) (sym (same z_log));
    entry_refs = λ e other. w.entry_refs e other ∙ sym (same e);
    dead = λ e other out. same e ∙ w.dead e other out;
    alive = λ e i. rw (same e) (w.alive e i);
    distinct = w.distinct;
    apart = w.apart;
  }

  module _ (own : ℕ → ℕ) (live : List ℕ) (h : O.Heap) (w : Owned own live h) where
    -- A copy of a reference to the log.
    pub copy-Owned : Owned (update own z_log (own z_log + 1)) live (O.copy h z_log)
    copy-Owned =
        let base = w.log_refs in
        record {
          log_refs = ground (arith, O.refs-copy h z_log z_log);
          entry_refs = λ e other. ground (arith, O.refs-copy h z_log e, w.entry_refs e);
          dead = λ e other out. ground (arith, w.dead e);
          alive = λ e i. ground (arith, w.alive e);
          distinct = w.distinct;
          apart = w.apart;
        }

    pub new_entry-ne_log : 0 < own z_log → (O.create h).0 ≢ z_log
    new_entry-ne_log held same =
        let base = w.log_refs in
        let unused = O.refs-unused h in let used = ap (O.refs h) same in omega arith

    -- A new entry, held once, that refers to the log.
    pub create-Owned :
        0 < own z_log
        → Owned (update own (O.create h).0 1) ((O.create h).0 ∷ live) (O.copy (O.create h).1 z_log)
    create-Owned held =
        let e = (O.create h).0 in
        let h1 = (O.create h).1 in
        let base = w.log_refs in
        let unused = O.refs-unused h in
        let other = new_entry-ne_log held in
        let never = w.entry_refs e other in
        let out : mem e live ≡ false = elim (Bool-cases (mem e live)) [
          | inl i ↦ let held_once = w.alive e i in absurd (omega arith)
          | inr o ↦ o
        ] in
        record {
          log_refs = ground (arith, O.refs-copy h1 z_log z_log, O.refs-create h z_log);
          entry_refs =
              λ k apart. ground (arith, O.refs-copy h1 z_log k, O.refs-create h k, w.entry_refs k);
          dead = λ k apart gone. unfold mem in ground (arith, w.dead k);
          alive = λ k i. unfold mem in ground (arith, w.alive k);
          distinct = (out, w.distinct);
          apart = let unheld = w.apart in unfold mem in ground arith;
        }

    -- The end of a reference to the log, which is not the last one.
    pub release-Owned :
        1 < own z_log
        → (h' : O.Heap) × (O.zval_ptr_dtor h z_log ≡ ok (false, h'))
          × Owned (update own z_log (own z_log - 1)) live h'
    release-Owned held =
        let base = w.log_refs in
        let (h', e, c) = release-kept h z_log (omega arith) in
        (
          h',
          e,
          record {
            log_refs = ground (arith, c z_log);
            entry_refs = λ k apart. ground (arith, c k, w.entry_refs k);
            dead = λ k apart gone. ground (arith, w.dead k);
            alive = λ k i. ground (arith, w.alive k, w.apart);
            distinct = w.distinct;
            apart = w.apart;
          },
        )

    -- The end of a reference to an entry, while the log is held.
    pub release_entry-Owned :
        (e : ℕ)
        → e ≢ z_log
        → own e ≡ 1
        → 0 < own z_log
        → (h' : O.Heap) × (release_entry z_log (some e) h ≡ ok (false, h'))
          × Owned (update own e 0) (erase e live) h'
    unfolding release_entry free_entry
    release_entry-Owned e other one held =
        let base = w.log_refs in
        let once = w.entry_refs e other in
        let lives : mem e live ≡ true = elim (Bool-cases (mem e live)) [
          | inl i ↦ i
          | inr out ↦ let none_held = w.dead e other out in absurd (omega arith)
        ] in
        let shorter = length-erase e live lives in
        let (h1, e1, c1) = O.zval_ptr_dtor-ok h e (omega arith) in
        let is_last : (O.refs h e == 1) ≡ true = (==_iff (O.refs h e) 1).1 (once ∙ one) in
        let kept : O.refs h1 z_log ≡ O.refs h z_log = ground (arith, c1 z_log) in
        let (h2, e2, c2) = release-kept h1 z_log (omega arith) in
        (
          h2,
          rw (e1, is_last, e2) refl,
          record {
            log_refs = ground (arith, c2 z_log);
            entry_refs = λ k apart. ground (arith, c1 k, c2 k, w.entry_refs k);
            dead = λ k apart gone. ground (arith, w.dead k, mem-erase k e live w.distinct);
            alive = λ k i. ground (arith, w.alive k, mem-erase k e live w.distinct);
            distinct = Distinct-erase e live w.distinct;
            apart = ground (arith, mem-erase z_log e live w.distinct, w.apart);
          },
        )

  module _ (own : ℕ → ℕ) (live : List ℕ) (h : O.Heap) (w : Owned own live h) where
    -- An entry that is made and released again.
    pub used_once-Owned :
        0 < own z_log
        → (h' : O.Heap) × (release_entry z_log (some (O.create h).0) (O.copy (O.create h).1 z_log)
            ≡ ok (false, h'))
          × Owned own live h'
    unfolding erase
    used_once-Owned held =
        let e = (O.create h).0 in
        let other = new_entry-ne_log own live h w held in
        let made = create-Owned own live h w held in
        let unused = O.refs-unused h in
        let never = w.entry_refs e other in
        let here : (e == e) ≡ true = (==_iff e e).1 refl in
        let (h', is_ok, after) =
          release_entry-Owned (update own e 1) (e ∷ live) _ made e other (rw here refl)
            (ground arith) in
        (
          h',
          is_ok,
          Owned-ext (update (update own e 1) e 0) own live h' (λ k. ground arith)
              (rw here at after),
        )
