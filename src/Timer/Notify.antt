-- ===== src/Timer/Notify.antt =====
-- The abstract view of the pending list: the timers that await their callback, in order, each with
-- the number of its expiries. excimer_timer_handle and excimer_timer_pending_dequeue implement it.
use mediawiki_php_excimer.Prelude.{
  ℕ, ◌+◌, ◌%◌, ◌^◌, ◌≡◌, ◌≢◌, refl, ap, ◌∙◌, inl, inr, Bool, true, false, Option, none, some, List,
  [], ◌∷◌, ◌++◌, arith, ◌==◌, if◌then◌else◌, Bool-cases,
}
use mediawiki_php_excimer.Run.{Run, ok, ◌>>=◌}
use mediawiki_php_excimer.Timer.{Ptr, null, update, PendingList}
use mediawiki_php_excimer.Timer.Pending.{take_count, pending_dequeue, handle}
use mediawiki_php_excimer.Timer.Ring.{mem, Distinct}
use mediawiki_php_excimer.Timer.Queue.{IsQueue, list_enqueue-IsQueue}
use mediawiki_php_excimer.Timer.Distinct.{mem-append_list}
use mediawiki_php_excimer.Timer.Fifo.{list_dequeue-IsQueue}

abbrev pub Pending : Type 0
Pending = List (Ptr × ℕ)

unfoldable pub timers : Pending → List Ptr
timers [] = []
timers ((p, c) ∷ q) = p ∷ timers q

-- `n` expiries of the timer `t`: they are added to those that are pending, or `t` is queued last.
unfoldable pub notify : Ptr → ℕ → Pending → Pending
notify t n [] = (t, n % 2 ^ 64) ∷ []
notify t n ((p, c) ∷ q) = if p == t then (p, (c + n) % 2 ^ 64) ∷ q else (p, c) ∷ notify t n q

unfoldable pub dequeue : Pending → Option (Ptr × ℕ) × Pending
dequeue [] = (none, [])
dequeue (e ∷ q) = (some e, q)

abbrev pub Counts : (Ptr → ℕ) → Pending → Type 0
Counts f [] = Unit
Counts f ((p, c) ∷ q) = (f p ≡ c) × Counts f q

-- The memory `m` represents the abstract queue `q`; a timer that is not queued has no events.
pub record Implements (m : PendingList) (q : Pending) : Type 0 where
  pub queue : IsQueue m (timers q)
  pub counts : Counts m.event_count q
  pub idle : (p : Ptr) → mem p (timers q) ≡ false → m.event_count p ≡ 0

-- The queue does not depend on the event counts or the interrupt flag.
pub recount :
    (m : PendingList) (f : Ptr → ℕ) (b : Bool) (qs : List Ptr)
    → IsQueue m qs
    → IsQueue (record m { event_count = f; vm_interrupt = b }) qs
recount m f b [] is = record {
  ring = is.ring;
  distinct = is.distinct;
  nonnull = is.nonnull;
  free = is.free;
}
recount m f b (x ∷ xs) is = record {
  ring = is.ring;
  distinct = is.distinct;
  nonnull = is.nonnull;
  free = is.free;
}

timers-notify :
    (t : Ptr) (n : ℕ) (q : Pending)
    → timers (notify t n q) ≡ (if mem t (timers q) then timers q else timers q ++ t ∷ [])
unfolding timers notify mem
timers-notify t n [] = refl
timers-notify t n ((p, c) ∷ q) = ground (arith, timers-notify t n q)

Counts-kept :
    (f : Ptr → ℕ) (t : Ptr) (v : ℕ) (q : Pending)
    → Counts f q
    → mem t (timers q) ≡ false
    → Counts (update f t v) q
unfolding timers mem
Counts-kept f t v [] h out = tt
Counts-kept f t v ((p, c) ∷ q) h out = (ground arith, Counts-kept f t v q h.1 (ground arith))

module _ (f : Ptr → ℕ) (t : Ptr) (n : ℕ) where
  Counts-notify :
      (q : Pending)
      → Counts f q
      → Distinct (timers q)
      → (mem t (timers q) ≡ false → f t ≡ 0)
      → Counts (update f t ((f t + n) % 2 ^ 64)) (notify t n q)
  unfolding timers notify mem
  Counts-notify [] h d z = (let free = z (ground arith) in ground arith, tt)
  Counts-notify ((p, c) ∷ q) h d z = elim (Bool-cases (p == t)) [
    | inl here ↦
        let out = d.0 in
        rw here (ground arith, Counts-kept f t ((f t + n) % 2 ^ 64) q h.1 (ground arith))
    | inr further ↦ rw further (ground arith, Counts-notify q h.1 d.1 (λ out. z (ground arith)))
  ]

idle-notify :
    (f : Ptr → ℕ) (t : Ptr) (v n : ℕ) (q : Pending)
    → ((p : Ptr) → mem p (timers q) ≡ false → f p ≡ 0)
    → (p : Ptr) → mem p (if mem t (timers q) then timers q else timers q ++ t ∷ []) ≡ false
    → update f t v p ≡ 0
unfolding mem
idle-notify f t v n q z p out = ground (arith, z p, mem-append_list p (timers q) (t ∷ []))

raise : PendingList → Run PendingList
raise m = ok (record m { vm_interrupt = true })

-- The same for the queue alone.
pub handle-IsQueue :
    (m : PendingList) (qs : List Ptr) (t : Ptr) (o : ℕ)
    → t ≢ null
    → IsQueue m qs
    → (m' : PendingList) × (handle t o m ≡ ok m')
      × IsQueue m' (if mem t qs then qs else qs ++ t ∷ [])
unfolding handle raise
handle-IsQueue m qs t o ht is =
    let v = (m.event_count t + (o + 1)) % 2 ^ 64 in
    let f = update m.event_count t v in
    let (m1, e, is1, same) =
      list_enqueue-IsQueue (record m { event_count = f }) t ht qs
        (recount m f m.vm_interrupt qs is) in
    (
      record m1 { vm_interrupt = true },
      ap (λ r. r >>= raise) e,
      recount m1 m1.event_count true _ is1,
    )

-- An expiry with `o` overruns adds o + 1 events to those of the timer, queueing it behind all others
-- if it is not yet queued, and sets the flag that makes the virtual machine look.
pub handle-Implements :
    (m : PendingList) (q : Pending) (t : Ptr) (o : ℕ)
    → t ≢ null
    → Implements m q
    → (m' : PendingList) × (handle t o m ≡ ok m')
      × Implements m' (notify t (o + 1) q)
      × (m'.vm_interrupt ≡ true)
unfolding handle raise
handle-Implements m q t o ht r =
    let v = (m.event_count t + (o + 1)) % 2 ^ 64 in
    let f = update m.event_count t v in
    let counted = recount m f m.vm_interrupt (timers q) r.queue in
    let (m1, e, is, same) =
      list_enqueue-IsQueue (record m { event_count = f }) t ht (timers q) counted in
    (
      record m1 { vm_interrupt = true },
      ap (λ r. r >>= raise) e,
      record {
        queue = rw (timers-notify t (o + 1) q) (recount m1 m1.event_count true _ is);
        counts =
            rw same (Counts-notify m.event_count t (o + 1) q r.counts r.queue.distinct (r.idle t));
        idle =
            rw (timers-notify t (o + 1) q, same) (idle-notify m.event_count t v (o + 1) q r.idle);
      },
      refl,
    )

-- The interrupt takes the first of the pending timers, with its events, and leaves the others; the
-- timer starts again from no events.
pub pending_dequeue-Implements :
    (m : PendingList) (q : Pending)
    → Implements m q
    → (m' : PendingList) × (pending_dequeue m ≡ ok ((dequeue q).0, m'))
      × Implements m' (dequeue q).1
unfolding pending_dequeue take_count dequeue timers
pending_dequeue-Implements m [] r =
    let (m1, e, is, same) = list_dequeue-IsQueue m [] r.queue in
    (m1, ap (λ r. r >>= take_count) e, record { queue = is; counts = tt; idle = rw same (r.idle) })
pending_dequeue-Implements m ((p, c) ∷ q) r =
    let (m1, e, is, same) = list_dequeue-IsQueue m (p ∷ timers q) r.queue in
    let out = r.queue.distinct.0 in
    let taken : m1.event_count p ≡ c = ap (λ g. g p) same ∙ r.counts.0 in
    (
      record m1 { event_count = update m1.event_count p 0 },
      ap (λ r. r >>= take_count) e
          ∙ ap (λ n. ok (some (p, n), record m1 { event_count = update m1.event_count p 0 })) taken,
      record {
        queue = recount m1 (update m1.event_count p 0) m1.vm_interrupt (timers q) is;
        counts = rw same (Counts-kept m.event_count p 0 q r.counts.1 out);
        idle = rw same (λ a h. let kept = r.idle a in unfold mem in ground arith);
      },
    )
