-- ===== src/Log/Aggregate/Order.antt =====
-- The result of the aggregation stands in the descending order of the inclusive counts.
use mediawiki_php_excimer.Prelude.{
  ℕ, ◌^◌, ◌<◌, ◌≤◌, ◌≡◌, refl, sym, ◌∙◌, Bool, true, none, some, List, [], ◌∷◌, arith, leb,
}
use mathlib.Core.Path.{subst}
use mediawiki_php_excimer.Bytes.{Bytes}
use mediawiki_php_excimer.Run.{ok}
use mediawiki_php_excimer.Zend.{
  HashApi, Key, num, str, AllFrom, IsSorted, AllPairs, IsOrder, find-new,
}
use mediawiki_php_excimer.Log.{Frame, Entry, Log}
use mediawiki_php_excimer.Log.Valid.{IsValid, total}
use mediawiki_php_excimer.Log.Trace.{Zval}
use mediawiki_php_excimer.Log.Aggregate.{
  inclusive_key, value, Aggregate, aggr_compare, aggr_by_func,
}
use mediawiki_php_excimer.Log.Aggregate.Counts.{absent, present, Counts}
use mediawiki_php_excimer.Log.Aggregate.Loop.{NamedTrace, Traced, is_among, events}
use mediawiki_php_excimer.Log.Aggregate.Traces.{aggr_entries-Counts, Traced-total}
use mediawiki_php_excimer.Log.Aggregate.Names.{OnlyNames, aggr_entries-OnlyNames}

-- The events of some backtraces are among those of all entries.
events-le-total :
    (frames : List Frame) (p : List Bytes → Bool) (entries : List Entry) (traces : List NamedTrace)
    → Traced frames entries traces
    → events p traces ≤ total entries
unfolding events total
events-le-total frames p [] [] t = omega arith
events-le-total frames p [] (x ∷ ts) t = absurd t
events-le-total frames p (e ∷ es) [] t = absurd t
events-le-total frames p (e ∷ es) ((ns, count) ∷ ts) (walk, same, rest) =
    ground (arith, same, events-le-total frames p es ts rest)

module _ {V : Type 0} (P : V → Type 0) (le le' : V → V → Bool)
    (mono : (a b : V) → P a → P b → le a b ≡ true → le' a b ≡ true) where
  AllFrom-mono :
      (v : V) (m : List (Key × V))
      → P v
      → AllPairs (λ k w. P w) m
      → AllFrom le v m
      → AllFrom le' v m
  AllFrom-mono v [] p ps h = tt
  AllFrom-mono v ((k, w) ∷ m) p ps h = (mono v w p ps.0 h.0, AllFrom-mono v m p ps.1 h.1)

  IsSorted-mono : (m : List (Key × V)) → AllPairs (λ k w. P w) m → IsSorted le m → IsSorted le' m
  IsSorted-mono [] ps h = tt
  IsSorted-mono ((k, v) ∷ m) ps h = (AllFrom-mono v m ps.0 ps.1 h.0, IsSorted-mono m ps.1 h.1)

AllPairs-mono :
    {V : Type 0} (P Q : Key → V → Type 0) (m : List (Key × V))
    → ((k : Key) (v : V) → P k v → Q k v)
    → AllPairs P m
    → AllPairs Q m
AllPairs-mono P Q [] f h = tt
AllPairs-mono P Q ((k, v) ∷ m) f h = (f k v h.0, AllPairs-mono P Q m f h.1)

module _ ⦃Z : HashApi⦄ where
  abbrev pub inclusive_of : Z.Table Zval → ℕ
  inclusive_of info = value (Z.find info (str inclusive_key))

  -- The first counts at least as much as the second.
  abbrev pub descends : Z.Table Zval → Z.Table Zval → Bool
  descends a b = leb (inclusive_of b) (inclusive_of a)

  abbrev IsSmall : Z.Table Zval → Type 0
  IsSmall info = inclusive_of info < 2 ^ 63

  -- The difference does not wrap.
  aggr_compare-descends :
      (a b : Z.Table Zval) → IsSmall a → IsSmall b → aggr_compare a b ≡ descends a b
  unfolding aggr_compare
  aggr_compare-descends a b ha hb = ground arith

  aggr_compare-IsOrder : IsOrder aggr_compare IsSmall
  aggr_compare-IsOrder = record {
    total = λ a b ha hb h.
        ground (arith, aggr_compare-descends a b ha hb, aggr_compare-descends b a hb ha);
    trans = λ a b c ha hb hc h k. ground (
      arith,
      aggr_compare-descends a b ha hb,
      aggr_compare-descends b c hb hc,
      aggr_compare-descends a c ha hc,
    );
  }

  Counts-IsSmall :
      (result : Z.Table (Z.Table Zval)) (self inclusive : Bytes → ℕ)
      → Counts result self inclusive
      → OnlyNames result
      → ((n : Bytes) → inclusive n < 2 ^ 63)
      → (k : Key) (info : Z.Table Zval) → Z.find result k ≡ some info
      → IsSmall info
  Counts-IsSmall result self inclusive c names small (num i) info e =
      let missing : Z.find result (num i) ≡ none = names i in absurd (cc)
  Counts-IsSmall result self inclusive c names small (str n) info e = elim (c n) [
    | absent e' hs hi ↦ absurd (cc)
    | present info' e' h ↦
        let same : info' ≡ info = cc in
        let bound = small n in subst IsSmall same (rw h.has_inclusive bound)
  ]

  -- On a valid log with fewer than 2^63 events the aggregation succeeds, and its result is in the
  -- descending order of the inclusive counts.
  pub aggr_by_func-IsSorted :
      (log : Log Z)
      → IsValid log
      → total log.entries < 2 ^ 63
      → (t : Z.Table (Z.Table Zval)) × (aggr_by_func log ≡ ok t) × IsSorted descends (Z.items t)
  unfolding aggr_by_func
  aggr_by_func-IsSorted log v few =
      let (traces, traced) = Traced-total log log.entries v v.sampled in
      let a : Aggregate = record { result = Z.new (Z.Table Zval); unique = Z.new Zval } in
      let (a', done, c) =
        aggr_entries-Counts log log.entries traces a (λ n. 0) (λ n. 0) v.sampled traced
          (λ n. find-new (str n)) (λ n. absent (find-new (str n)) refl refl) in
      let names = aggr_entries-OnlyNames log log.entries a a' done (λ i. find-new (num i)) in
      let small =
        Counts-IsSmall a'.result _ _ c names
          (λ n. omega (arith, events-le-total log.frames (is_among n) log.entries traces traced)) in
      let t = Z.sort aggr_compare a'.result in
      (
        t,
        rw done,
        IsSorted-mono IsSmall aggr_compare descends
            (λ x y hx hy h. sym (aggr_compare-descends x y hx hy) ∙ h) (Z.items t)
            (AllPairs-mono (λ k x. Z.find a'.result k ≡ some x) (λ k x. IsSmall x) (Z.items t) small
              (Z.items-sort aggr_compare a'.result))
            (Z.sort-IsSorted aggr_compare IsSmall a'.result aggr_compare-IsOrder small),
      )
