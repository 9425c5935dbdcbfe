-- ===== src/Profiler/Ticks.antt =====
-- The timer events of a profiler, one after another, with a script that keeps the logs it is given.

use mediawiki_php_excimer.Prelude.{
  ℕ, ◌+◌, ◌≡◌, refl, ap, ◌∙◌, false, List, [], ◌∷◌, ◌++◌, arith, length, leb, map,
}
use mediawiki_php_excimer.Run.{Run, ok, ◌>>=◌}
use mediawiki_php_excimer.Zend.{HashApi}
use mediawiki_php_excimer.Timespec.{Timespec, timespec_to_ns}
use mediawiki_php_excimer.Timerlib.{PosixApi}
use mediawiki_php_excimer.Timer.Life.{Thread}
use mediawiki_php_excimer.Log.{Entry, Log, init, copy_options}
use mediawiki_php_excimer.Log.Sample.{Call}
use mediawiki_php_excimer.Log.Recorded.{Lines}
use mediawiki_php_excimer.Log.Add.{Added}
use mediawiki_php_excimer.Profiler.{Profiler, rotated, event}

-- One timer event: its count, the call stack and the time.
pub record Tick : Type 0 where
  pub event_count : ℕ
  pub stack : List Call
  pub now : Timespec

-- What a sample tells beside its backtrace.
abbrev pub stamp : Entry → ℕ × ℕ
stamp e = (e.event_count, e.timestamp)

abbrev pub due : Tick → ℕ × ℕ
due t = (t.event_count, timespec_to_ns t.now)

abbrev pub AllLines : List Tick → Type 0
AllLines [] = Unit
AllLines (t ∷ ticks) = Lines t.stack × AllLines ticks

unfoldable pub calls : List Tick → ℕ
calls [] = 0
calls (t ∷ ticks) = length t.stack + calls ticks

map-append : {A B : Type 0} (f : A → B) (xs ys : List A) → map f (xs ++ ys) ≡ map f xs ++ map f ys
map-append f [] ys = refl
map-append f (x ∷ xs) ys = ap (λ zs. f x ∷ zs) (map-append f xs ys)

pub no_stamps : (es : List Entry) → leb 1 (length es) ≡ false → map stamp es ≡ []
no_stamps [] h = refl
no_stamps (e ∷ es) h = absurd (ground arith)

module _ ⦃Z : HashApi⦄ where
  -- A script that keeps the logs that its callback is given, the last one first.
  abbrev pub keep : Log Z → List (Log Z) → List (Log Z)
  keep log logs = log ∷ logs

  abbrev pub stamps : Log Z → List (ℕ × ℕ)
  stamps log = map stamp log.entries

  unfoldable pub delivered : List (Log Z) → List (ℕ × ℕ)
  delivered [] = []
  delivered (log ∷ logs) = delivered logs ++ stamps log

module _ ⦃Z : HashApi⦄ ⦃O : PosixApi⦄ (memory : Log Z) where
  -- The events, one after another.
  unfoldable pub run_events :
      List Tick → Profiler Z → Thread O → List (Log Z) → Run (Profiler Z × Thread O × List (Log Z))
  run_events [] p st logs = ok (p, st, logs)
  run_events (t ∷ ticks) p st logs =
      event keep memory t.event_count t.stack t.now p st logs >>= λ r. run_events ticks r.0 r.1 r.2

  pub stamps-Added :
      (log log' : Log Z) (t : Tick)
      → Added log t.stack t.event_count (timespec_to_ns t.now) log'
      → stamps log' ≡ stamps log ++ due t ∷ []
  stamps-Added log log' t a = ap (map stamp) a.sample ∙ map-append stamp log.entries _

  pub stamps-rotated : (log : Log Z) → stamps (rotated memory log) ≡ []
  unfolding rotated init copy_options
  stamps-rotated log = refl

  pub length-rotated_frames : (log : Log Z) → length (rotated memory log).frames ≡ 1
  unfolding rotated init copy_options
  length-rotated_frames log = refl
