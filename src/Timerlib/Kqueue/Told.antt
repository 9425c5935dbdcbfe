-- ===== src/Timerlib/Kqueue/Told.antt =====
-- What the notify function of a kqueue timer is told of.
use mediawiki_php_excimer.Prelude.{
  ℕ, ◌+◌, ◌-◌, ◌%◌, ◌^◌, ◌≡◌, refl, sym, ap, ◌∙◌, inl, inr, Bool, true, false, ◌||◌, ◌&&◌, not,
  List, [], ◌∷◌, ◌++◌, arith, take, if◌then◌else◌, Bool-cases,
}
use mathlib.Core.List.{append-nil, append_assoc}
use mediawiki_php_excimer.Timespec.{timespec_is_zero, timespec_to_ns}
use mediawiki_php_excimer.Timerlib.Kqueue.{
  Kevent, interrupted, bad_descriptor, failed, no_event, expired, KqueueTimer, handle_timer_event,
  End, returned, handle_events, reconfigured, await_initial, kqueue_handle,
}

-- The overrun counts of the events up to the error that ends the thread.
unfoldable pub heard : List Kevent → List ℕ
heard [] = []
heard (interrupted ∷ es) = heard es
heard (bad_descriptor ∷ es) = []
heard (failed ∷ es) = []
heard (no_event ∷ es) = heard es
heard (expired expiries now ∷ es) = (expiries + (2 ^ 32 - 1)) % 2 ^ 32 ∷ heard es

-- The period is zero, or is refused.
abbrev pub is_once : (ℕ → Bool) → KqueueTimer → Bool
is_once change t = timespec_is_zero t.period || not (change (timespec_to_ns t.period))

-- The events that count: after an initial delay a timer without a period takes the first event for
-- its expiry.
abbrev pub attended : (ℕ → Bool) → KqueueTimer → List Kevent → List Kevent
attended change t es =
    if not (timespec_is_zero t.initial) && is_once change t then take 1 es else es

handle_events-told :
    (es : List Kevent) (t : KqueueTimer) → (handle_events es t).1.told ≡ t.told ++ heard es
unfolding handle_events handle_timer_event heard
handle_events-told [] t = sym (append-nil t.told)
handle_events-told (interrupted ∷ es) t = handle_events-told es t
handle_events-told (bad_descriptor ∷ es) t = sym (append-nil t.told)
handle_events-told (failed ∷ es) t = sym (append-nil t.told)
handle_events-told (no_event ∷ es) t = handle_events-told es t
handle_events-told (expired expiries now ∷ es) t =
    handle_events-told es (handle_timer_event (expired expiries now) t).1
    ∙ append_assoc t.told _ (heard es)

reconfigured-once :
    (change : ℕ → Bool) (es : List Kevent) (t : KqueueTimer)
    → is_once change t ≡ true
    → reconfigured change es t ≡ (returned, t)
unfolding reconfigured
reconfigured-once change es t h = elim (Bool-cases (timespec_is_zero t.period)) [
  | inl zero_ ↦ rw zero_
  | inr period ↦
      let refused : change (timespec_to_ns t.period) ≡ false = ground arith in rw (period, refused)
]

reconfigured-again :
    (change : ℕ → Bool) (es : List Kevent) (t : KqueueTimer)
    → is_once change t ≡ false
    → reconfigured change es t ≡ handle_events es t
unfolding reconfigured
reconfigured-again change es t h =
    let period : timespec_is_zero t.period ≡ false = ground arith in
    let accepted : change (timespec_to_ns t.period) ≡ true = ground arith in rw (period, accepted)

await_initial-once :
    (change : ℕ → Bool) (es : List Kevent) (t : KqueueTimer)
    → is_once change t ≡ true
    → (await_initial change es t).1.told ≡ t.told ++ heard (take 1 es)
unfolding await_initial handle_timer_event heard
await_initial-once change [] t h = sym (append-nil t.told)
await_initial-once change (interrupted ∷ es) t h =
    rw (reconfigured-once change es t h) (sym (append-nil t.told))
await_initial-once change (bad_descriptor ∷ es) t h = sym (append-nil t.told)
await_initial-once change (failed ∷ es) t h = sym (append-nil t.told)
await_initial-once change (no_event ∷ es) t h =
    rw (reconfigured-once change es t h) (sym (append-nil t.told))
await_initial-once change (expired expiries now ∷ es) t h =
    rw (reconfigured-once change es (handle_timer_event (expired expiries now) t).1 h)

await_initial-again :
    (change : ℕ → Bool) (es : List Kevent) (t : KqueueTimer)
    → is_once change t ≡ false
    → await_initial change es t ≡ handle_events es t
unfolding await_initial handle_timer_event handle_events
await_initial-again change [] t h = refl
await_initial-again change (interrupted ∷ es) t h = reconfigured-again change es t h
await_initial-again change (bad_descriptor ∷ es) t h = refl
await_initial-again change (failed ∷ es) t h = refl
await_initial-again change (no_event ∷ es) t h = reconfigured-again change es t h
await_initial-again change (expired expiries now ∷ es) t h =
    reconfigured-again change es (handle_timer_event (expired expiries now) t).1 h

-- The notify function is called with the overrun counts of the events that count, in their order:
-- of all events up to an error, but of the first event at most where there is an initial delay and
-- no period follows it, since it is zero or refused.
pub kqueue_handle-told :
    (change : ℕ → Bool) (es : List Kevent) (t : KqueueTimer)
    → (kqueue_handle change es t).1.told ≡ t.told ++ heard (attended change t es)
unfolding kqueue_handle
kqueue_handle-told change es t = elim (Bool-cases (timespec_is_zero t.initial)) [
  | inl at_once ↦ rw at_once (handle_events-told es t)
  | inr delayed ↦ elim (Bool-cases (is_once change t)) [
    | inl once ↦ rw (delayed, once) (await_initial-once change es t once)
    | inr again ↦
        rw (delayed, again)
          (ap (λ (r : End × KqueueTimer). r.1.told) (await_initial-again change es t again)
            ∙ handle_events-told es t)
  ]
]

-- A timer with an initial delay and no period whose first wait is interrupted never calls the notify
-- function: the thread has returned, whatever events would follow.
pub oneshot_interrupted :
    (change : ℕ → Bool) (es : List Kevent) (t : KqueueTimer)
    → timespec_is_zero t.initial ≡ false
    → timespec_is_zero t.period ≡ true
    → kqueue_handle change (interrupted ∷ es) t ≡ (returned, t)
unfolding kqueue_handle await_initial handle_timer_event reconfigured
oneshot_interrupted change es t delayed once = rw (delayed, once)
