-- ===== src/Profiler/Interrupts.antt =====
-- The interrupt of the virtual machine with several profilers, each with its own timer: the callbacks
-- of excimer_timer_interrupt are the events of the profilers.
use mediawiki_php_excimer.Prelude.{
  ℕ, zero, suc, ◌+◌, ◌^◌, ◌≤◌, ◌<◌, ◌≡◌, refl, ap, inl, inr, Bool, true, false, none, List, [],
  arith, length, leb, ◌==◌, if◌then◌else◌, Bool-cases, get_elem?-lt,
}
use mathlib.Core.Path.{subst}
use mediawiki_php_excimer.Prelude.Int.{pos}
use mediawiki_php_excimer.Run.{Run, ok, ◌>>=◌}
use mediawiki_php_excimer.Zend.{HashApi}
use mediawiki_php_excimer.Timespec.{Timespec, timespec_to_ns}
use mediawiki_php_excimer.Timerlib.{PosixApi}
use mediawiki_php_excimer.Timer.{Ptr, update, PendingList}
use mediawiki_php_excimer.Timer.Notify.{Pending, Implements}
use mediawiki_php_excimer.Timer.Interrupt.{
  interrupt, call_old, length_pending, Served, interrupt-Implements,
}
use mediawiki_php_excimer.Timer.Life.{Thread}
use mediawiki_php_excimer.Log.{Log, zero_frame}
use mediawiki_php_excimer.Log.Sample.{Call}
use mediawiki_php_excimer.Log.Valid.{IsValid}
use mediawiki_php_excimer.Log.Recorded.{Lines}
use mediawiki_php_excimer.Log.Add.{Added}
use mediawiki_php_excimer.Profiler.{Profiler, callable, rotated, event}
use mediawiki_php_excimer.Profiler.Event.{event-delivers}
use mediawiki_php_excimer.Profiler.Ticks.{length-rotated_frames}

module _ ⦃Z : HashApi⦄ ⦃O : PosixApi⦄ {S : Type 0} (deliver : Log Z → S → S) (memory : Log Z)
    (stack : List Call) (now : Timespec) where
  -- The profilers by their timers, the thread and the state of the script.
  abbrev pub Profilers : Type 0
  Profilers = (Ptr → Profiler Z) × Thread O × S

  -- `timer->callback` is ExcimerProfiler_event, on the profiler that `user_data` points to.
  abbrev pub profilers_callback : Ptr → ℕ → Profilers × PendingList → Run (Profilers × PendingList)
  profilers_callback t c ((ps, st, s), m) = do
    r ← event deliver memory c stack now (ps t) (record st { pending = m }) s
    ok ((update ps t r.0, r.1, r.2), r.1.pending)

  -- The profiler of the timer `t` took one sample of the stack, with the count `c`: it goes on with the
  -- log that has the sample, or hands it over and goes on with an empty one; the others are unchanged,
  -- and so is the thread but for its pending list.
  pub record TakesSample (t : Ptr) (c : ℕ) (x x' : Profilers) : Type 0 where
    pub n : ℕ
    pub limit : (x.0 t).max_samples ≡ pos (suc n)
    pub log : Log Z
    pub added : Added (x.0 t).log stack c (timespec_to_ns now) log
    pub profilers :
        x'.0
        ≡ update x.0 t (record (x.0 t) {
          log = if leb (suc n) (length log.entries) then rotated memory log else log;
        })
    pub thread : x'.1 ≡ record x.1 { pending = x'.1.pending }
    pub given : x'.2 ≡ (if leb (suc n) (length log.entries) then deliver log x.2 else x.2)

  -- How many frames k samples may add.
  abbrev pub growth : ℕ → ℕ
  growth zero = 0
  growth (suc k) = length stack + growth k

  -- A profiler has a valid log with room for k samples, a limit and a callable callback.
  pub record Able (k : ℕ) (p : Profiler Z) : Type 0 where
    pub valid : IsValid p.log
    pub room : length p.log.frames + growth k ≤ 2 ^ 32
    pub n : ℕ
    pub limit : p.max_samples ≡ pos (suc n)
    pub call : p.z_callback ≡ callable

  abbrev pub AllAble : ℕ → Profilers → Type 0
  AllAble k x = (t : Ptr) → Able k (x.0 t)

  fewer-Able : (k : ℕ) (p : Profiler Z) → Able (suc k) p → Able k p
  fewer-Able k p a = record {
    valid = a.valid;
    room = let room = a.room in omega arith;
    n = a.n;
    limit = a.limit;
    call = a.call;
  }

  update-Able :
      (k : ℕ) (ps : Ptr → Profiler Z) (t : Ptr) (p : Profiler Z)
      → ((u : Ptr) → Able (suc k) (ps u))
      → Able k p
      → (u : Ptr) → Able k (update ps t p u)
  update-Able k ps t p a b u = elim (Bool-cases (u == t)) [
    | inl here ↦ rw here b
    | inr there ↦ rw there (fewer-Able k (ps u) (a u))
  ]

  frames-Able :
      (full : Bool) (k : ℕ) (p : Profiler Z) (log : Log Z)
      → (a : Able (suc k) p) → length log.frames ≤ length p.log.frames + length stack
      → IsValid (if full then rotated memory log else log)
      → Able k (record p { log = if full then rotated memory log else log })
  frames-Able true k p log a grown valid =
      let valid' = a.valid in
      let positive = get_elem?-lt p.log.frames 0 zero_frame valid'.zeroth in
      record {
        valid = valid;
        room = let room = a.room in omega (arith, length-rotated_frames memory log, positive);
        n = a.n;
        limit = a.limit;
        call = a.call;
      }
  frames-Able false k p log a grown valid = record {
    valid = valid;
    room = let room = a.room in omega arith;
    n = a.n;
    limit = a.limit;
    call = a.call;
  }

  pub profilers-serve :
      Lines stack
      → (k : ℕ) (t : Ptr) (c : ℕ) (x : Profilers) (m : PendingList) (q : Pending)
      → AllAble (suc k) x
      → Implements m q
      → (x' : Profilers) × (m' : PendingList) × (profilers_callback t c (x, m) ≡ ok (x', m'))
        × TakesSample t c x x'
        × AllAble k x'
        × Implements m' q
  profilers-serve lines k t c (ps, st, s) m q able imp =
      let a = able t in
      let room = a.room in
      let (log, p', added, done, is_p', valid, few, depth) =
        event-delivers deliver memory c stack now (ps t) (record st { pending = m }) s a.n a.valid
          lines (omega arith) a.limit a.call in
      let valid' = subst (λ (p : Profiler Z). IsValid p.log) is_p' valid in
      let able' : Able k p' =
        rw is_p'
          (frames-Able (leb (suc a.n) (length log.entries)) k (ps t) log a added.growth valid') in
      (
        (
          update ps t p',
          record st { pending = m },
          if leb (suc a.n) (length log.entries) then deliver log s else s,
        ),
        m,
        rw done refl,
        record {
          n = a.n;
          limit = a.limit;
          log = log;
          added = added;
          profilers = ap (update ps t) is_p';
          thread = refl;
          given = refl;
        },
        update-Able k ps t p' able able',
        imp,
      )

  -- With several profilers, each with a valid log, a limit, a callable callback and room for the
  -- frames, the interrupt ends: the profiler of each pending timer takes one sample of the stack, with
  -- the timer's number of events, in the order of the queue, and the queue is left empty.
  pub interrupt-Served :
      (fuel : ℕ) (q : Pending) (x : Profilers) (m : PendingList)
      → Lines stack
      → Implements m q
      → AllAble (length_pending q) x
      → length_pending q < fuel
      → (x' : Profilers) × (m' : PendingList) × (interrupt profilers_callback none fuel (x, m)
          ≡ ok (x', m'))
        × Served TakesSample q x x'
        × Implements m' []
  unfolding call_old
  interrupt-Served fuel q x m lines imp able few =
      interrupt-Implements profilers_callback AllAble TakesSample (profilers-serve lines) none fuel
        q x m imp able few
