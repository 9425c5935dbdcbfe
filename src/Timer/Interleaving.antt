-- ===== src/Timer/Interleaving.antt =====
-- Expiries, which the timer threads notify, and calls of the callbacks, which the interrupted
-- thread makes, in any order. The mutex makes each of them one step.
use mediawiki_php_excimer.Prelude.{
  ℕ, ◌+◌, ◌%◌, ◌^◌, ◌≡◌, ◌≢◌, refl, sym, ap, ◌∙◌, inl, inr, false, some, List, [], ◌∷◌, arith, ◌==◌,
  if◌then◌else◌, Bool-cases,
}
use mathlib.Core.Path.{subst}
use mediawiki_php_excimer.Run.{ok}
use mediawiki_php_excimer.Timer.{Ptr, null, PendingList}
use mediawiki_php_excimer.Timer.Pending.{handle, pending_dequeue}
use mediawiki_php_excimer.Timer.Ring.{mem, Distinct}
use mediawiki_php_excimer.Timer.Notify.{
  Pending, Counts, Implements, notify, dequeue, timers, handle-Implements,
  pending_dequeue-Implements,
}

pub data Event : Type 0 where
  expires : (t : Ptr) (overrun_count : ℕ) → Event
  calls : (t : Ptr) (c : ℕ) → Event

-- The memory at the start of a thread: no timer has any link or any event.
abbrev pub fresh : PendingList
fresh = record {
  next = λ p. null;
  prev = λ p. null;
  event_count = λ p. 0;
  head = null;
  vm_interrupt = false;
}

-- The memory after the events, the last of them first.
pub data Reaches : List Event → PendingList → Type 0 where
  start : Reaches [] fresh
  expire :
      {es : List Event} {m m' : PendingList} (t : Ptr) (o : ℕ)
      → t ≢ null
      → Reaches es m
      → handle t o m ≡ ok m'
      → Reaches (expires t o ∷ es) m'
  call :
      {es : List Event} {m m' : PendingList} (t : Ptr) (c : ℕ)
      → Reaches es m
      → pending_dequeue m ≡ ok (some (t, c), m')
      → Reaches (calls t c ∷ es) m'

-- How often a timer expired, and how many of its events its callback was told of.
abbrev pub expired : Ptr → List Event → ℕ
expired p [] = 0
expired p (expires t o ∷ es) = (if t == p then o + 1 else 0) + expired p es
expired p (calls t c ∷ es) = expired p es

abbrev pub told : Ptr → List Event → ℕ
told p [] = 0
told p (expires t o ∷ es) = told p es
told p (calls t c ∷ es) = (if t == p then c else 0) + told p es

-- The abstract queue after the events.
abbrev pub replay : List Event → Pending
replay [] = []
replay (expires t o ∷ es) = notify t (o + 1) (replay es)
replay (calls t c ∷ es) = (dequeue (replay es)).1

abbrev waiting : Ptr → Pending → ℕ
waiting p [] = 0
waiting p ((t, c) ∷ q) = (if t == p then c else 0) + waiting p q

pub fresh-Implements : Implements fresh []
unfolding timers mem
fresh-Implements = record {
  queue = record { ring = refl; distinct = tt; nonnull = unfold mem in refl; free = λ p out. refl };
  counts = tt;
  idle = λ p out. refl;
}

ok_injective : {A : Type 0} {a b : A} → ok a ≡ ok b → a ≡ b
ok_injective h = cc

-- In every interleaving the memory represents the queue that the events give.
pub Reaches-Implements :
    {es : List Event} {m : PendingList} → Reaches es m → Implements m (replay es)
Reaches-Implements start = fresh-Implements
Reaches-Implements (expire {es = es} {m = m} t o ht r e) =
    let (m1, e1, i, b) = handle-Implements m (replay es) t o ht (Reaches-Implements r) in
    subst (λ n. Implements n (notify t (o + 1) (replay es))) (ok_injective (sym e1 ∙ e)) i
Reaches-Implements (call {es = es} {m = m} t c r e) =
    let (m1, e1, i) = pending_dequeue-Implements m (replay es) (Reaches-Implements r) in
    subst (λ n. Implements n (dequeue (replay es)).1) (ap (λ x. x.1) (ok_injective (sym e1 ∙ e))) i

waiting-notify :
    (p t : Ptr) (n : ℕ) (q : Pending)
    → waiting p (notify t n q) % 2 ^ 64 ≡ ((if t == p then n else 0) + waiting p q) % 2 ^ 64
unfolding notify
waiting-notify p t n [] = ground arith
waiting-notify p t n ((a, c) ∷ q) = ground (arith, waiting-notify p t n q)

waiting-dequeue :
    (p t : Ptr) (c : ℕ) (q : Pending)
    → (dequeue q).0 ≡ some (t, c)
    → waiting p q ≡ (if t == p then c else 0) + waiting p (dequeue q).1
unfolding dequeue
waiting-dequeue p t c [] h = absurd (cc)
waiting-dequeue p t c ((a, b) ∷ q) h = ground arith

absent-waiting : (p : Ptr) (q : Pending) → mem p (timers q) ≡ false → waiting p q ≡ 0
unfolding timers mem
absent-waiting p [] out = refl
absent-waiting p ((a, c) ∷ q) out = ground (arith, absent-waiting p q)

-- The field `event_count` holds what waits.
waiting-Counts :
    (p : Ptr) (f : Ptr → ℕ) (q : Pending)
    → Counts f q
    → Distinct (timers q)
    → (mem p (timers q) ≡ false → f p ≡ 0)
    → waiting p q ≡ f p
unfolding timers mem
waiting-Counts p f [] h d idle = sym (idle refl)
waiting-Counts p f ((a, c) ∷ q) h d idle = elim (Bool-cases (a == p)) [
  | inl here ↦
      let same : a ≡ p = ground arith in
      let first = h.0 in
      let out : mem p (timers q) ≡ false = subst (λ b. mem b (timers q) ≡ false) same d.0 in
      ground (arith, absent-waiting p q out)
  | inr further ↦
      let later = waiting-Counts p f q h.1 d.1 (λ out. idle (ground arith)) in ground arith
]

-- Each callback was due in the abstract queue, with its events.
abbrev pub Consistent : List Event → Type 0
Consistent [] = Unit
Consistent (expires t o ∷ es) = Consistent es
Consistent (calls t c ∷ es) = ((dequeue (replay es)).0 ≡ some (t, c)) × Consistent es

Reaches-Consistent : {es : List Event} {m : PendingList} → Reaches es m → Consistent es
Reaches-Consistent start = tt
Reaches-Consistent (expire t o ht r e) = Reaches-Consistent r
Reaches-Consistent (call {es = es} {m = m} t c r e) =
    let (m1, e1, i) = pending_dequeue-Implements m (replay es) (Reaches-Implements r) in
    (ap (λ x. x.0) (ok_injective (sym e1 ∙ e)), Reaches-Consistent r)

told-waiting :
    (es : List Event) (p : Ptr)
    → Consistent es
    → (told p es + waiting p (replay es)) % 2 ^ 64 ≡ expired p es % 2 ^ 64
told-waiting [] p h = refl
told-waiting (expires t o ∷ es) p h =
    let before = told-waiting es p h in
    let queued = waiting-notify p t (o + 1) (replay es) in ground arith
told-waiting (calls t c ∷ es) p h =
    let before = told-waiting es p h.1 in
    let taken = waiting-dequeue p t c (replay es) h.0 in ground arith

-- The same of the counts in a memory that represents the queue.
pub told-memory :
    (es : List Event) {m : PendingList}
    → Consistent es
    → Implements m (replay es)
    → (p : Ptr) → (told p es + m.event_count p) % 2 ^ 64 ≡ expired p es % 2 ^ 64
told-memory es {m} h i p =
    let field = waiting-Counts p m.event_count (replay es) i.counts i.queue.distinct (i.idle p) in
    rw (← field) (told-waiting es p h)

-- No expiry is lost and none is reported twice: in every interleaving, the events that the callback
-- of a timer was told of and those in its `event_count` are together the timer's expiries, modulo
-- 2^64.
pub expired-told :
    {es : List Event} {m : PendingList}
    → Reaches es m
    → (p : Ptr) → (told p es + m.event_count p) % 2 ^ 64 ≡ expired p es % 2 ^ 64
expired-told {es = es} r p = told-memory es (Reaches-Consistent r) (Reaches-Implements r) p
