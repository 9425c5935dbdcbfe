-- ===== src/Log/Aggregate/Names.antt =====
-- The result of the aggregation has names for its keys, and no numbers.
use mediawiki_php_excimer.Prelude.{
  ℕ, zero, suc, ◌≡◌, ◌∙◌, inl, inr, Bool, true, false, none, some, List, [], ◌∷◌, ◌==◌, length,
  Bool-cases, Option-cases,
}
use mathlib.Core.Path.{subst}
use mediawiki_php_excimer.Prelude.Int.{pos}
use mediawiki_php_excimer.Bytes.{Bytes}
use mediawiki_php_excimer.Run.{ok, >>=-eq-ok}
use mediawiki_php_excimer.Zend.{HashApi, num, str, key_eq, find-add, find-assign}
use mediawiki_php_excimer.Log.{Frame, Entry, Log, get_frame}
use mediawiki_php_excimer.Log.Name.{deref}
use mediawiki_php_excimer.Log.Trace.{Zval}
use mediawiki_php_excimer.Log.Aggregate.{
  self_key, inclusive_key, array_incr, new_info, Aggregate, find_or_new_info, incr_info, incr_self,
  incr_inclusive, count_frame, aggr_name, aggr_loop, aggr_entries,
}

ok_injective : {A : Type 0} {a b : A} → ok a ≡ ok b → a ≡ b
ok_injective h = cc

module _ ⦃Z : HashApi⦄ where
  abbrev pub OnlyNames : Z.Table (Z.Table Zval) → Type 0
  OnlyNames result = (i : ℕ) → Z.find result (num i) ≡ none

  OnlyNames-add :
      (result : Z.Table (Z.Table Zval)) (name : Bytes) (info : Z.Table Zval)
      → Z.find result (str name) ≡ none
      → OnlyNames result
      → OnlyNames (Z.add result (str name) info)
  unfolding key_eq
  OnlyNames-add result name info e h i = find-add result (str name) (num i) info e ∙ h i

  OnlyNames-assign :
      (result : Z.Table (Z.Table Zval)) (name : Bytes) (info before : Z.Table Zval)
      → Z.find result (str name) ≡ some before
      → OnlyNames result
      → OnlyNames (Z.assign result (str name) info)
  unfolding key_eq
  OnlyNames-assign result name info before e h i =
      find-assign result (str name) (num i) info before e ∙ h i

  find_or_new_info-OnlyNames :
      (name : Bytes) (frame : Frame) (a : Aggregate)
      → OnlyNames a.result
      → OnlyNames (find_or_new_info name frame a).result
  unfolding find_or_new_info
  find_or_new_info-OnlyNames name frame a h = elim (Option-cases (Z.find a.result (str name))) [
    | inl e ↦ rw (e, find_or_new_info) (OnlyNames-add a.result name (new_info frame) e h)
    | inr (info, e) ↦ rw (e, find_or_new_info) h
  ]

  incr_info-OnlyNames :
      (name key : Bytes) (term : ℕ) (a : Aggregate)
      → OnlyNames a.result
      → OnlyNames (incr_info name key term a).result
  unfolding incr_info
  incr_info-OnlyNames name key term a h = elim (Option-cases (Z.find a.result (str name))) [
    | inl e ↦ rw (e, incr_info) h
    | inr (info, e) ↦
        rw (e, incr_info) (OnlyNames-assign a.result name (array_incr info key term) info e h)
  ]

  incr_self-OnlyNames :
      (name : Bytes) (is_top : Bool) (term : ℕ) (a : Aggregate)
      → OnlyNames a.result
      → OnlyNames (incr_self name is_top term a).result
  unfolding incr_self
  incr_self-OnlyNames name true term a h = incr_info-OnlyNames name self_key term a h
  incr_self-OnlyNames name false term a h = h

  incr_inclusive-OnlyNames :
      (name : Bytes) (term : ℕ) (a : Aggregate)
      → OnlyNames a.result
      → OnlyNames (incr_inclusive name term a).result
  unfolding incr_inclusive
  incr_inclusive-OnlyNames name term a h = elim (Option-cases (Z.find a.unique (str name))) [
    | inl e ↦ rw (e, incr_inclusive) (incr_info-OnlyNames name inclusive_key term a h)
    | inr (z, e) ↦ rw (e, incr_inclusive) h
  ]

  count_frame-OnlyNames :
      (frame : Frame) (is_top : Bool) (term : ℕ) (a a' : Aggregate)
      → count_frame frame is_top term a ≡ ok a'
      → OnlyNames a.result
      → OnlyNames a'.result
  unfolding count_frame
  count_frame-OnlyNames frame is_top term a a' e h =
      let (name, named, rest) = >>=-eq-ok (aggr_name frame) _ e in
      let found = find_or_new_info name frame a in
      let self = incr_self name is_top term found in
      subst (λ (x : Aggregate). OnlyNames x.result) (ok_injective rest)
        (incr_inclusive-OnlyNames name term self
          (incr_self-OnlyNames name is_top term found (find_or_new_info-OnlyNames name frame a h)))

  aggr_loop-OnlyNames :
      (log : Log Z) (fuel i : ℕ) (is_top : Bool) (term : ℕ) (a a' : Aggregate)
      → aggr_loop fuel log i is_top term a ≡ ok a'
      → OnlyNames a.result
      → OnlyNames a'.result
  unfolding aggr_loop
  aggr_loop-OnlyNames log zero i is_top term a a' e h = absurd (cc)
  aggr_loop-OnlyNames log (suc fuel) i is_top term a a' e h = elim (Bool-cases (i == 0)) [
    | inl end ↦
        let done : ok a ≡ ok a' = rw end at e in
        subst (λ (x : Aggregate). OnlyNames x.result) (ok_injective done) h
    | inr more ↦
        let (frame, found, e1) = >>=-eq-ok (deref (get_frame log (pos i))) _ (rw more at e) in
        let (a1, counted, e2) = >>=-eq-ok (count_frame frame is_top term a) _ e1 in
        aggr_loop-OnlyNames log fuel frame.prev_index false term a1 a' e2
          (count_frame-OnlyNames frame is_top term a a1 counted h)
  ]

  pub aggr_entries-OnlyNames :
      (log : Log Z) (entries : List Entry) (a a' : Aggregate)
      → aggr_entries log entries a ≡ ok a'
      → OnlyNames a.result
      → OnlyNames a'.result
  unfolding aggr_entries
  aggr_entries-OnlyNames log [] a a' e h =
      subst (λ (x : Aggregate). OnlyNames x.result) (ok_injective e) h
  aggr_entries-OnlyNames log (entry ∷ entries) a a' e h =
      let (a1, looped, rest) =
        >>=-eq-ok
          (aggr_loop (suc (length log.frames)) log entry.frame_index true entry.event_count a) _
          e in
      aggr_entries-OnlyNames log entries (record a1 { unique = Z.new Zval }) a' rest
        (aggr_loop-OnlyNames log (suc (length log.frames)) entry.frame_index true entry.event_count
          a a1 looped h)
