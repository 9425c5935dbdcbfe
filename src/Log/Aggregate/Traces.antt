-- ===== src/Log/Aggregate/Traces.antt =====
-- The counts of the whole aggregation, against sums over the backtraces of the log's entries.
use mediawiki_php_excimer.Prelude.{
  ℕ, ◌+◌, ◌%◌, ◌^◌, ◌<◌, ◌≡◌, refl, inl, inr, false, List, [], ◌∷◌, ◌++◌, ◌==◌, arith, length,
  if◌then◌else◌, Bool-cases, Option-cases,
}
use mediawiki_php_excimer.Log.Key.{codes}
use mediawiki_php_excimer.Bytes.{Bytes, format_int}
use mediawiki_php_excimer.Run.{ok}
use mediawiki_php_excimer.Zend.{HashApi, str, find-new}
use mediawiki_php_excimer.Log.{Frame, Entry, Log}
use mediawiki_php_excimer.Log.Valid.{IsValid, All}
use mediawiki_php_excimer.Log.Walk.{Walks-total}
use mediawiki_php_excimer.Log.Name.Plain.{HasFile}
use mediawiki_php_excimer.Log.Collapsed.Lines.{Visits-HasFile}
use mediawiki_php_excimer.Log.Trace.{Zval}
use mediawiki_php_excimer.Log.Aggregate.{
  Aggregate, aggr_name, plain_prefix, aggr_entries, aggr_compare, aggr_by_func,
}
use mediawiki_php_excimer.Log.Aggregate.Counts.{absent, Counts, Seen, Has-transport}
use mediawiki_php_excimer.Log.Aggregate.Loop.{
  Named, NamedTrace, Traced, is_on_top, is_among, events, Counts-pointwise, aggr_loop-Counts,
}

module _ ⦃Z : HashApi⦄ where
  pub aggr_entries-Counts :
      (log : Log Z) (entries : List Entry) (traces : List NamedTrace) (a : Aggregate)
      (self inclusive : Bytes → ℕ)
      → All (λ (e : Entry). e.frame_index < length log.frames) entries
      → Traced log.frames entries traces
      → Seen a.unique (λ n. false)
      → Counts a.result (λ n. self n % 2 ^ 64) (λ n. inclusive n % 2 ^ 64)
      → (a' : Aggregate) × (aggr_entries log entries a ≡ ok a')
        × Counts a'.result
            (λ n. (self n + events (is_on_top n) traces) % 2 ^ 64)
            (λ n. (inclusive n + events (is_among n) traces) % 2 ^ 64)
  unfolding aggr_entries events
  aggr_entries-Counts log [] [] a self inclusive v t u c =
      (a, refl, Counts-pointwise a.result _ _ _ _ (λ n. ground (arith)) (λ n. ground (arith)) c)
  aggr_entries-Counts log [] (x ∷ ts) a self inclusive v t u c = absurd t
  aggr_entries-Counts log (e ∷ es) [] a self inclusive v t u c = absurd t
  aggr_entries-Counts log (e ∷ es) ((ns, count) ∷ ts) a self inclusive v
        ((fs, visits, named), same, rest) u c =
      let self' = λ (n : Bytes). self n + (if is_on_top n ns then e.event_count else 0) in
      let inclusive' = λ (n : Bytes). inclusive n + (if is_among n ns then e.event_count else 0) in
      let inside : e.frame_index < length log.frames = v.0 in
      let (a1, looped, c1) =
        aggr_loop-Counts log e.frame_index fs ns e.event_count a self inclusive (omega arith) visits
          named u c in
      let (a2, done, c2) =
        aggr_entries-Counts log es ts (record a1 { unique = Z.new Zval }) self' inclusive' v.1 rest
          (λ n. find-new (str n)) c1 in
      (
        a2,
        rw looped done,
        Counts-pointwise a2.result _ _ _ _ (λ n. ground (arith, same)) (λ n. ground (arith, same))
            c2,
      )

  aggr_name-HasFile : (f : Frame) → HasFile f → (n : Bytes) × (aggr_name f ≡ ok n)
  unfolding aggr_name
  aggr_name-HasFile f (s, e) = elim (Bool-cases (f.closure_line == 0)) [
    | inl plain ↦ elim (Option-cases f.function_name) [
      | inl no_name ↦ (s, rw (plain, no_name, e))
      | inr (n, has_name) ↦ (plain_prefix f.class_name ++ n, rw (plain, has_name))
    ]
    | inr closure ↦ (
      codes "{closure:" ++ (s ++ (codes "(" ++ (format_int f.closure_line ++ codes ")}"))),
      rw (closure, e),
    )
  ]

  Named-total : (fs : List Frame) → All HasFile fs → (ns : List Bytes) × Named fs ns
  Named-total [] h = ([], tt)
  Named-total (f ∷ fs) (file, files) =
      let (n, e) = aggr_name-HasFile f file in
      let (ns, es) = Named-total fs files in (n ∷ ns, (e, es))

  pub Traced-total :
      (log : Log Z) (entries : List Entry)
      → IsValid log
      → All (λ (e : Entry). e.frame_index < length log.frames) entries
      → (ts : List NamedTrace) × Traced log.frames entries ts
  Traced-total log [] v inside = ([], tt)
  Traced-total log (e ∷ es) v inside =
      let (fs, walks) = Walks-total log e.frame_index v inside.0 in
      let (ns, named) = Named-total fs (Visits-HasFile log e.frame_index fs v walks.visits) in
      let (ts, rest) = Traced-total log es v inside.1 in
      ((ns, e.event_count) ∷ ts, ((fs, walks.visits, named), refl, rest))

  -- On a valid log the aggregation succeeds, and a function's two counts are, modulo 2^64, the
  -- events of the entries whose backtrace has the function on top, and of those whose backtrace has
  -- it anywhere, each entry once; a function that the result has not has no events.
  pub aggr_by_func-Counts :
      (log : Log Z)
      → IsValid log
      → (traces : List NamedTrace) × Traced log.frames log.entries traces
        × ((t : Z.Table (Z.Table Zval)) × (aggr_by_func log ≡ ok t)
            × Counts t
                (λ n. events (is_on_top n) traces % 2 ^ 64)
                (λ n. events (is_among n) traces % 2 ^ 64))
  unfolding aggr_by_func
  aggr_by_func-Counts log v =
      let (traces, traced) = Traced-total log log.entries v v.sampled in
      let a : Aggregate = record { result = Z.new (Z.Table Zval); unique = Z.new Zval } in
      let (a', done, c) =
        aggr_entries-Counts log log.entries traces a (λ n. 0) (λ n. 0) v.sampled traced
          (λ n. find-new (str n)) (λ n. absent (find-new (str n)) refl refl) in
      (
        traces,
        traced,
        (
          Z.sort aggr_compare a'.result,
          rw done,
          λ n.
              Has-transport (Z.find a'.result (str n)) _ _ _ _ _
                (Z.find-sort aggr_compare a'.result (str n)) (omega arith) (omega arith) (c n),
        ),
      )
