-- ===== src/Log/Aggregate/Pass.antt =====
-- What one frame adds to the counts.
use mediawiki_php_excimer.Prelude.{
  ℕ, ◌≡◌, refl, sym, ap, ◌∙◌, inl, inr, Bool, true, false, none, some, if◌then◌else◌, Bool-cases,
}
use mathlib.Core.Path.{subst}
use mediawiki_php_excimer.Bytes.{Bytes, bytes_eq, bytes_eq_iff}
use mediawiki_php_excimer.Run.{ok}
use mediawiki_php_excimer.Zend.{HashApi, str, key_eq, find-add}
use mediawiki_php_excimer.Log.{Frame}
use mediawiki_php_excimer.Log.Trace.{Zval, long}
use mediawiki_php_excimer.Log.Aggregate.{
  self_key, inclusive_key, array_incr, new_info, Aggregate, find_or_new_info, incr_info, incr_self,
  incr_inclusive, count_frame, aggr_name,
}
use mediawiki_php_excimer.Log.Aggregate.Info.{IsInfo, array_incr_self, array_incr_inclusive}
use mediawiki_php_excimer.Log.Aggregate.Counts.{
  bump, mark, absent, present, Seen, Tallies, Known, bump-same, bump-other, find-assign_same,
  find-add_same, Counts-known, Counts-assign, Counts-add,
}

module _ ⦃Z : HashApi⦄ where
  module _ (self inclusive : Bytes → ℕ) (seen : Bytes → Bool) (name : Bytes) where
    find_or_new_info-Tallies :
        (frame : Frame) (a : Aggregate)
        → Tallies a self inclusive seen
        → Tallies (find_or_new_info name frame a) self inclusive seen
          × Known name (find_or_new_info name frame a)
    unfolding find_or_new_info
    find_or_new_info-Tallies frame a t = elim (t.counts name) [
      | absent e hs hi ↦
          rw (e, find_or_new_info)
            (
              record {
                counts = Counts-add a.result self inclusive name frame t.counts e hs hi;
                names = t.names;
              },
              (new_info frame, find-add_same a.result name (new_info frame) e),
            )
      | present info e h ↦ rw (e, find_or_new_info) (t, (info, e))
    ]

    incr_self-Tallies :
        (is_top : Bool) (term : ℕ) (a : Aggregate)
        → Tallies a self inclusive seen
        → Known name a
        → Tallies
            (incr_self name is_top term a)
            (if is_top then bump name term self else self)
            inclusive
            seen
          × Known name (incr_self name is_top term a)
    unfolding incr_self incr_info
    incr_self-Tallies false term a t k = (t, k)
    incr_self-Tallies true term a t (info, e) =
        let info' = array_incr info self_key term in
        let known = Counts-known a.result self inclusive name info t.counts e in
        let incr = array_incr_self info term (self name) (inclusive name) known in
        rw (e, incr_info)
          (
            record {
              counts =
                  Counts-assign a.result self inclusive (bump name term self) inclusive name info
                    info' t.counts e
                    (subst (λ c. IsInfo info' c (inclusive name)) (bump-same name term self) incr)
                    (bump-other name term self) (λ n h. refl);
              names = t.names;
            },
            (info', find-assign_same a.result name info' info e),
          )

    Seen-mark :
        (unique : Z.Table Zval)
        → Seen unique seen
        → seen name ≡ false
        → Seen (Z.add unique (str name) (long 0)) (mark name seen)
    unfolding key_eq
    Seen-mark unique h fresh n =
        let before = rw fresh at (h name) in
        let added = find-add unique (str name) (str n) (long 0) before in
        elim (Bool-cases (bytes_eq name n)) [
          | inl same ↦ rw same (rw same at added)
          | inr other ↦ rw other (rw other at added ∙ h n)
        ]

    Seen-again :
        (unique : Z.Table Zval) → Seen unique seen → seen name ≡ true → Seen unique (mark name seen)
    Seen-again unique h again n = elim (Bool-cases (bytes_eq name n)) [
      | inl same ↦
          let equal : name ≡ n = (bytes_eq_iff name n).0 same in
          let there : seen n ≡ true = ap seen (sym equal) ∙ again in
          let found = rw there at (h n) in rw same found
      | inr other ↦ rw other (h n)
    ]

    incr_inclusive-Tallies :
        (term : ℕ) (a : Aggregate)
        → Tallies a self inclusive seen
        → Known name a
        → Tallies
            (incr_inclusive name term a)
            self
            (if seen name then inclusive else bump name term inclusive)
            (mark name seen)
    unfolding incr_inclusive incr_info
    incr_inclusive-Tallies term a t (info, e) = elim (Bool-cases (seen name)) [
      | inl again ↦
          let there : Z.find a.unique (str name) ≡ some (long 0) = rw again at (t.names name) in
          rw (again, there, incr_inclusive)
            (record { counts = t.counts; names = Seen-again a.unique t.names again })
      | inr fresh ↦
          let missing : Z.find a.unique (str name) ≡ none = rw fresh at (t.names name) in
          let info' = array_incr info inclusive_key term in
          let known = Counts-known a.result self inclusive name info t.counts e in
          let incr = array_incr_inclusive info term (self name) (inclusive name) known in
          rw (fresh, missing, incr_inclusive, e, incr_info)
            (record {
              counts =
                  Counts-assign a.result self inclusive self (bump name term inclusive) name info
                    info' t.counts e
                    (subst (λ c. IsInfo info' (self name) c) (bump-same name term inclusive) incr)
                    (λ n h. refl) (bump-other name term inclusive);
              names = Seen-mark a.unique t.names fresh;
            })
    ]

  -- The body of the loop bumps the self count of the top frame's name, and the inclusive count of a
  -- name that the entry has not counted.
  pub count_frame-Tallies :
      (self inclusive : Bytes → ℕ) (seen : Bytes → Bool) (frame : Frame) (name : Bytes)
      (is_top : Bool) (term : ℕ) (a : Aggregate)
      → aggr_name frame ≡ ok name
      → Tallies a self inclusive seen
      → (a' : Aggregate) × (count_frame frame is_top term a ≡ ok a')
        × Tallies a'
            (if is_top then bump name term self else self)
            (if seen name then inclusive else bump name term inclusive)
            (mark name seen)
  unfolding count_frame
  count_frame-Tallies self inclusive seen frame name is_top term a e t =
      let (t1, k1) = find_or_new_info-Tallies self inclusive seen name frame a t in
      let (t2, k2) =
        incr_self-Tallies self inclusive seen name is_top term (find_or_new_info name frame a) t1
          k1 in
      (
        incr_inclusive name term (incr_self name is_top term (find_or_new_info name frame a)),
        rw e,
        incr_inclusive-Tallies (if is_top then bump name term self else self) inclusive seen name
            term (incr_self name is_top term (find_or_new_info name frame a)) t2 k2,
      )
