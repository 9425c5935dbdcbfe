-- ===== src/Profiler/Delivered.antt =====
-- The samples of a profiler from its events to the logs that the script is given.
use mathlib.Core.List.{append_assoc, append-nil}
use mediawiki_php_excimer.Prelude.{
  ℕ, suc, ◌+◌, ◌^◌, ◌≤◌, ◌≡◌, refl, sym, ap, ◌∙◌, inl, inr, List, [], ◌∷◌, ◌++◌, arith, length, leb,
  if◌then◌else◌, Bool-cases, map, get_elem?-lt,
}
use mediawiki_php_excimer.Prelude.Int.{pos}
use mediawiki_php_excimer.Run.{Run, ok}
use mediawiki_php_excimer.Zend.{HashApi}
use mediawiki_php_excimer.Timerlib.{PosixApi}
use mediawiki_php_excimer.Timer.Life.{Thread}
use mediawiki_php_excimer.Log.{Log, zero_frame}
use mediawiki_php_excimer.Log.Valid.{IsValid}
use mediawiki_php_excimer.Log.Recorded.{Lines}
use mediawiki_php_excimer.Profiler.{Profiler, callable, rotated, event, flush, dtor}
use mediawiki_php_excimer.Profiler.Event.{event-delivers}
use mediawiki_php_excimer.Profiler.Ticks.{
  Tick, due, AllLines, calls, no_stamps, keep, stamps, delivered, run_events, stamps-Added,
  stamps-rotated, length-rotated_frames,
}

module _ ⦃Z : HashApi⦄ ⦃O : PosixApi⦄ (memory : Log Z) where
  -- After events the profiler has its limit and its callback, a valid log with room left, and the
  -- samples `new` have been added to the logs delivered and the current one.
  pub record Kept (n calls : ℕ) (new : List (ℕ × ℕ)) (p : Profiler Z) (st : Thread O)
      (logs : List (Log Z)) (outcome : Run (Profiler Z × Thread O × List (Log Z))) : Type 0 where
    pub p' : Profiler Z
    pub logs' : List (Log Z)
    pub succeeds : outcome ≡ ok (p', st, logs')
    pub valid : IsValid p'.log
    pub limit : p'.max_samples ≡ pos (suc n)
    pub call : p'.z_callback ≡ callable
    pub room_left : length p'.log.entries ≤ n
    pub growth : length p'.log.frames ≤ length p.log.frames + calls
    pub complete : delivered logs' ++ stamps p'.log ≡ (delivered logs ++ stamps p.log) ++ new

  module _ (n : ℕ) (p : Profiler Z) (st : Thread O) (logs : List (Log Z)) where
    event-Kept :
        (t : Tick)
        → IsValid p.log
        → Lines t.stack
        → length p.log.frames + length t.stack ≤ 2 ^ 32
        → p.max_samples ≡ pos (suc n)
        → p.z_callback ≡ callable
        → Kept n
            (length t.stack)
            (due t ∷ [])
            p
            st
            logs
            (event keep memory t.event_count t.stack t.now p st logs)
    unfolding delivered
    event-Kept t v lines room limit call =
        let (log, p', added, done, is_p', valid, few, depth) =
          event-delivers keep memory t.event_count t.stack t.now p st logs n v lines room limit
            call in
        let grown = added.growth in
        let positive = get_elem?-lt p.log.frames 0 zero_frame v.zeroth in
        let new = stamps-Added memory p.log log t added in
        elim (Bool-cases (leb (suc n) (length log.entries))) [
          | inl full ↦
              let current : p'.log ≡ rotated memory log =
                ap (λ x. x.log) is_p' ∙ ap (λ b. if b then rotated memory log else log) full in
              record {
                p' = p';
                logs' = log ∷ logs;
                succeeds = done ∙ ap (λ b. ok (p', st, if b then log ∷ logs else logs)) full;
                valid = valid;
                limit = ap (λ x. x.max_samples) is_p' ∙ limit;
                call = ap (λ x. x.z_callback) is_p' ∙ call;
                room_left = few;
                growth = rw current (omega (arith, length-rotated_frames memory log));
                complete =
                    rw (current, stamps-rotated memory log, append-nil, new)
                      (sym (append_assoc (delivered logs) (stamps p.log) (due t ∷ [])));
              }
          | inr shorter ↦
              let current : p'.log ≡ log =
                ap (λ x. x.log) is_p' ∙ ap (λ b. if b then rotated memory log else log) shorter in
              record {
                p' = p';
                logs' = logs;
                succeeds = done ∙ ap (λ b. ok (p', st, if b then log ∷ logs else logs)) shorter;
                valid = valid;
                limit = ap (λ x. x.max_samples) is_p' ∙ limit;
                call = ap (λ x. x.z_callback) is_p' ∙ call;
                room_left = few;
                growth = rw current grown;
                complete =
                    rw (current, new)
                      (sym (append_assoc (delivered logs) (stamps p.log) (due t ∷ [])));
              }
        ]

  pub run_events-Kept :
      (n : ℕ) (ticks : List Tick) (p : Profiler Z) (st : Thread O) (logs : List (Log Z))
      → IsValid p.log
      → AllLines ticks
      → length p.log.frames + calls ticks ≤ 2 ^ 32
      → p.max_samples ≡ pos (suc n)
      → p.z_callback ≡ callable
      → length p.log.entries ≤ n
      → Kept n (calls ticks) (map due ticks) p st logs (run_events memory ticks p st logs)
  unfolding run_events calls
  run_events-Kept n [] p st logs v lines room limit call few = record {
    p' = p;
    logs' = logs;
    succeeds = refl;
    valid = v;
    limit = limit;
    call = call;
    room_left = few;
    growth = omega arith;
    complete = sym (append-nil (delivered logs ++ stamps p.log));
  }
  run_events-Kept n (t ∷ ticks) p st logs v lines room limit call few =
      let first = event-Kept n p st logs t v lines.0 (omega arith) limit call in
      let grown = first.growth in
      let rest =
        run_events-Kept n ticks first.p' st first.logs' first.valid lines.1 (omega arith)
          first.limit first.call first.room_left in
      let grown_more = rest.growth in
      record {
        p' = rest.p';
        logs' = rest.logs';
        succeeds = rw first.succeeds rest.succeeds;
        valid = rest.valid;
        limit = rest.limit;
        call = rest.call;
        room_left = rest.room_left;
        growth = omega arith;
        complete =
            rest.complete
            ∙ rw first.complete
                (append_assoc (delivered logs ++ stamps p.log) (due t ∷ []) (map due ticks));
      }

  dtor-delivered :
      (p : Profiler Z) (st : Thread O) (logs : List (Log Z))
      → p.z_callback ≡ callable
      → delivered (dtor keep memory p st logs).2 ≡ delivered logs ++ stamps p.log
  unfolding dtor flush delivered
  dtor-delivered p st logs call = elim (Bool-cases (leb 1 (length p.log.entries))) [
    | inl some_left ↦ rw (some_left, call) refl
    | inr none_left ↦
        rw (none_left, no_stamps p.log.entries none_left) (sym (append-nil (delivered logs)))
  ]

  -- A profiler with a limit of n + 1 samples and a callable callback, whose log is valid and has at
  -- most n, takes any timer events, if their frames and lines fit in 32 bits, and is destroyed. All
  -- of it succeeds, and the callback has been given each sample of the log and each event once, in
  -- order, with its count and its time.
  pub all_delivered :
      (n : ℕ) (ticks : List Tick) (p : Profiler Z) (st : Thread O) (logs : List (Log Z))
      → IsValid p.log
      → AllLines ticks
      → length p.log.frames + calls ticks ≤ 2 ^ 32
      → p.max_samples ≡ pos (suc n)
      → p.z_callback ≡ callable
      → length p.log.entries ≤ n
      → (p' : Profiler Z) × (logs' : List (Log Z)) × (run_events memory ticks p st logs
          ≡ ok (p', st, logs'))
        × (delivered (dtor keep memory p' st logs').2
            ≡ (delivered logs ++ stamps p.log) ++ map due ticks)
  all_delivered n ticks p st logs v lines room limit call few =
      let k = run_events-Kept n ticks p st logs v lines room limit call few in
      (k.p', k.logs', k.succeeds, dtor-delivered k.p' st k.logs' k.call ∙ k.complete)
