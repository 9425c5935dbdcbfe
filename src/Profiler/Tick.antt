-- ===== src/Profiler/Tick.antt =====
-- From the expiries of the timer of a profiler to the sample: the reports of the handler thread, the
-- pending list, the interrupt of the virtual machine and the event of the profiler.
use mediawiki_php_excimer.Prelude.{
  ℕ, suc, ◌+◌, ◌%◌, ◌^◌, ◌≤◌, ◌≡◌, ◌≢◌, refl, none, List, [], ◌∷◌, arith, length, leb,
  if◌then◌else◌,
}
use mathlib.Core.Path.{subst}
use mediawiki_php_excimer.Prelude.Int.{pos}
use mediawiki_php_excimer.Run.{Run, ok, ◌>>=◌}
use mediawiki_php_excimer.Zend.{HashApi}
use mediawiki_php_excimer.Timespec.{Timespec, timespec_to_ns}
use mediawiki_php_excimer.Timerlib.{PosixApi}
use mediawiki_php_excimer.Timer.{Ptr, null, PendingList}
use mediawiki_php_excimer.Timer.Pending.{handle}
use mediawiki_php_excimer.Timer.Notify.{
  Implements, notify, dequeue, handle-Implements, pending_dequeue-Implements,
}
use mediawiki_php_excimer.Timer.Interrupt.{drain, call_old, interrupt}
use mediawiki_php_excimer.Timer.Life.{Thread}
use mediawiki_php_excimer.Log.{Log}
use mediawiki_php_excimer.Log.Sample.{Call}
use mediawiki_php_excimer.Log.Valid.{IsValid}
use mediawiki_php_excimer.Log.Recorded.{Lines}
use mediawiki_php_excimer.Log.Add.{Added}
use mediawiki_php_excimer.Profiler.{Profiler, callable, rotated, event}
use mediawiki_php_excimer.Profiler.Event.{event-delivers}

-- Reports of expiries of one timer, each with its overrun count.
unfoldable pub report_all : Ptr → List ℕ → PendingList → Run PendingList
report_all t [] m = ok m
report_all t (o ∷ os) m = do m' ← handle t o m; report_all t os m'

-- How many expiries they stand for.
unfoldable pub reported : List ℕ → ℕ
reported [] = 0
reported (o ∷ os) = o + 1 + reported os

report_all-Implements :
    (t : Ptr) (os : List ℕ) (c : ℕ) (m : PendingList)
    → t ≢ null
    → Implements m ((t, c % 2 ^ 64) ∷ [])
    → (m' : PendingList) × (report_all t os m ≡ ok m')
      × Implements m' ((t, (c + reported os) % 2 ^ 64) ∷ [])
unfolding report_all reported notify
report_all-Implements t [] c m ht r =
    let same : c % 2 ^ 64 ≡ (c + 0) % 2 ^ 64 = omega arith in
    (m, refl, subst (λ n. Implements m ((t, n) ∷ [])) same r)
report_all-Implements t (o ∷ os) c m ht r =
    let (m1, e, r1, raised) = handle-Implements m ((t, c % 2 ^ 64) ∷ []) t o ht r in
    let added : notify t (o + 1) ((t, c % 2 ^ 64) ∷ []) ≡ (t, (c + (o + 1)) % 2 ^ 64) ∷ [] =
      ground arith in
    let (m2, e2, r2) =
      report_all-Implements t os (c + (o + 1)) m1 ht (subst (λ q. Implements m1 q) added r1) in
    let same : (c + (o + 1) + reported os) % 2 ^ 64 ≡ (c + (o + 1 + reported os)) % 2 ^ 64 =
      omega arith in
    (m2, rw e e2, subst (λ n. Implements m2 ((t, n) ∷ [])) same r2)

-- The first report queues the timer.
reports-Implements :
    (t : Ptr) (o : ℕ) (os : List ℕ) (m : PendingList)
    → t ≢ null
    → Implements m []
    → (m' : PendingList) × (report_all t (o ∷ os) m ≡ ok m')
      × Implements m' ((t, reported (o ∷ os) % 2 ^ 64) ∷ [])
unfolding report_all reported notify
reports-Implements t o os m ht r =
    let (m1, e, r1, raised) = handle-Implements m [] t o ht r in
    let (m2, e2, r2) = report_all-Implements t os (o + 1) m1 ht r1 in (m2, rw e e2, r2)

module _ ⦃Z : HashApi⦄ ⦃O : PosixApi⦄ {S : Type 0} (deliver : Log Z → S → S) (memory : Log Z)
    (stack : List Call) (now : Timespec) where
  -- The callback that excimer_timer_interrupt calls: ExcimerProfiler_event, on the profiler that
  -- `user_data` points to.
  abbrev pub profiler_callback :
      Ptr
      → ℕ
      → (Profiler Z × Thread O × S) × PendingList
      → Run ((Profiler Z × Thread O × S) × PendingList)
  profiler_callback t c ((p, st, s), m) = do
    r ← event deliver memory c stack now p (record st { pending = m }) s
    ok (r, r.1.pending)

  -- However the expiries of a profiler's timer are reported to an empty pending list, one at a time
  -- or as overruns, the interrupt that follows adds one sample of the stack, whose event count is the
  -- number of the expiries, modulo 2^64. The profiler goes on with that log, or, if it has reached its
  -- limit, hands it over and goes on with an empty one; nothing else of it changes, its log is valid,
  -- and the pending list is empty. For a valid log in which the frames fit, a limit of n + 1 samples and a
  -- callable callback.
  pub interrupt-Added :
      (p : Profiler Z) (st : Thread O) (s : S) (n o : ℕ) (os : List ℕ) (m : PendingList)
      → p.timer ≢ null
      → Implements m []
      → IsValid p.log
      → Lines stack
      → length p.log.frames + length stack ≤ 2 ^ 32
      → p.max_samples ≡ pos (suc n)
      → p.z_callback ≡ callable
      → (m1 : PendingList) × (m2 : PendingList) × (m3 : PendingList) × (log : Log Z)
        × (p' : Profiler Z) × (report_all p.timer (o ∷ os) m ≡ ok m1)
        × Added p.log stack (reported (o ∷ os) % 2 ^ 64) (timespec_to_ns now) log
        × (interrupt profiler_callback none 2 ((p, st, s), m1)
            ≡ ok (
              (
                p',
                record st { pending = m2 },
                if leb (suc n) (length log.entries) then deliver log s else s,
              ),
              m3,
            ))
        × (p' ≡ record p {
          log = if leb (suc n) (length log.entries) then rotated memory log else log;
        })
        × IsValid p'.log
        × Implements m3 []
  unfolding interrupt drain call_old dequeue
  interrupt-Added p st s n o os m ht r v lines room limit call =
      let c = reported (o ∷ os) % 2 ^ 64 in
      let (m1, e1, r1) = reports-Implements p.timer o os m ht r in
      let (m2, e2, r2) = pending_dequeue-Implements m1 ((p.timer, c) ∷ []) r1 in
      let (m3, e3, r3) = pending_dequeue-Implements m2 [] r2 in
      let (log, p', added, done, is_p', valid, few, depth) =
        event-delivers deliver memory c stack now p (record st { pending = m2 }) s n v lines room
          limit call in
      (m1, m2, m3, log, p', e1, added, rw (e2, done) (rw e3), is_p', valid, r3)
