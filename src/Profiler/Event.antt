-- ===== src/Profiler/Event.antt =====
-- What a timer event promises.
use mediawiki_php_excimer.Prelude.{
  ℕ, suc, ◌+◌, ◌^◌, ◌≤◌, ◌≡◌, refl, ◌∙◌, inl, inr, List, arith, length, leb, if◌then◌else◌,
  Bool-cases,
}
use mediawiki_php_excimer.Prelude.Int.{pos}
use mediawiki_php_excimer.Run.{ok}
use mediawiki_php_excimer.Zend.{HashApi}
use mediawiki_php_excimer.Timespec.{Timespec, timespec_to_ns}
use mediawiki_php_excimer.Timerlib.{PosixApi}
use mediawiki_php_excimer.Timer.Life.{Thread}
use mediawiki_php_excimer.Log.{Log, init, copy_options}
use mediawiki_php_excimer.Log.Sample.{Call}
use mediawiki_php_excimer.Log.Valid.{IsValid}
use mediawiki_php_excimer.Log.Recorded.{Lines}
use mediawiki_php_excimer.Log.Add.{Added, add-Added, init-IsValid}
use mediawiki_php_excimer.Profiler.{
  Profiler, callable, rotated, flush, is_full, after_sample, event,
}

module _ ⦃Z : HashApi⦄ where
  rotated-IsValid : (memory log : Log Z) → IsValid (rotated memory log)
  unfolding rotated init copy_options
  rotated-IsValid memory log =
      let v = init-IsValid memory in
      record {
        zeroth = v.zeroth;
        fits = v.fits;
        linked = v.linked;
        named = v.named;
        sampled = v.sampled;
        counted = v.counted;
      }

  length-rotated : (memory log : Log Z) → length (rotated memory log).entries ≡ 0
  unfolding rotated init copy_options
  length-rotated memory log = refl

  max_depth-rotated : (memory log : Log Z) → (rotated memory log).max_depth ≡ log.max_depth
  unfolding rotated init copy_options
  max_depth-rotated memory log = refl

module _ ⦃Z : HashApi⦄ ⦃O : PosixApi⦄ {S : Type 0} (deliver : Log Z → S → S) (memory : Log Z) where
  -- With a limit of n + 1 samples and a callable callback, a timer event succeeds on a valid log if
  -- the frames fit: it adds the sample, and then, if the log has reached the limit, hands the log
  -- with the sample to the callback and goes on with an empty one that has the same depth limit. The
  -- log is valid again and has at most n samples.
  pub event-delivers :
      (event_count : ℕ) (stack : List Call) (now : Timespec) (p : Profiler Z) (st : Thread O)
      (s : S) (n : ℕ)
      → IsValid p.log
      → Lines stack
      → length p.log.frames + length stack ≤ 2 ^ 32
      → p.max_samples ≡ pos (suc n)
      → p.z_callback ≡ callable
      → (log : Log Z) × (p' : Profiler Z) × Added p.log stack event_count (timespec_to_ns now) log
        × (event deliver memory event_count stack now p st s
            ≡ ok (p', st, if leb (suc n) (length log.entries) then deliver log s else s))
        × (p' ≡ record p {
          log = if leb (suc n) (length log.entries) then rotated memory log else log;
        })
        × IsValid p'.log
        × (length p'.log.entries ≤ n)
        × (p'.log.max_depth ≡ p.log.max_depth)
  unfolding event after_sample flush is_full
  event-delivers event_count stack now p st s n v lines room limit call =
      let (log, e, a) = add-Added p.log stack event_count (timespec_to_ns now) v lines room in
      elim (Bool-cases (leb (suc n) (length log.entries))) [
        | inl full ↦ (
          log,
          record p { log = rotated memory log },
          a,
          simp (e, limit, call, full),
          simp (full),
          rotated-IsValid memory log,
          (let k = length-rotated memory log in omega arith),
          max_depth-rotated memory log ∙ a.grows.max_depth,
        )
        | inr room_left ↦ (
          log,
          record p { log = log },
          a,
          simp (e, limit, room_left),
          simp (room_left),
          a.valid,
          ground arith,
          a.grows.max_depth,
        )
      ]
