-- ===== src/Timer/Lives.antt =====
-- The invariant of the timers of a thread.
use mediawiki_php_excimer.Prelude.{
  ◌+◌, ◌%◌, ◌^◌, ◌≡◌, refl, inl, inr, true, false, not, ◌||◌, ◌&&◌, List, [], ◌∷◌, arith, ◌==◌,
  Bool-cases, length,
}
use mathlib.Core.Path.{subst}
use mediawiki_php_excimer.Timerlib.{PosixApi}
use mediawiki_php_excimer.Timer.{Ptr, null, PendingList}
use mediawiki_php_excimer.Timer.Ring.{
  mem, mem-last, mem_head, mem_tail, Distinct, last, Segment-retarget, next-last, prev-last,
}
use mediawiki_php_excimer.Timer.Distinct.{erase}
use mediawiki_php_excimer.Timer.Queue.{IsQueue, mem_apart}
use mediawiki_php_excimer.Timer.Life.{Thread, clear_pending}

module _ ⦃O : PosixApi⦄ where
  -- The valid timers of the thread are `live`; they belong to it and have a timer of the system, whose
  -- mutex is free.
  -- Only they run, and only they are pending.
  pub record Lives (st : Thread O) (live : List Ptr) : Type 0 where
    pub distinct : Distinct live
    pub nonnull : mem null live ≡ false
    pub valid : (p : Ptr) → (st.timers p).is_valid ≡ mem p live
    pub own : (p : Ptr) → mem p live ≡ true → (st.timers p).own ≡ true
    pub armed : (p : Ptr) → mem p live ≡ true → (st.timers p).tl_timer.timer_valid ≡ true
    pub unlocked : (p : Ptr) → mem p live ≡ true → (st.timers p).tl_timer.ready_locked ≡ false
    pub idle : (p : Ptr) → mem p live ≡ false → (st.timers p).is_running ≡ false
    pub active : st.timers_active ≡ length live % 2 ^ 64
    pub queue : List Ptr
    pub queued : IsQueue st.pending queue
    pub only : (p : Ptr) → mem p queue ≡ true → mem p live ≡ true

pub clear_pending-IsQueue :
    ⦃O : PosixApi⦄ (m : PendingList) (p : Ptr) (qs : List Ptr)
    → IsQueue m qs
    → mem p qs ≡ false
    → IsQueue (clear_pending p m) qs
unfolding clear_pending
clear_pending-IsQueue m p [] is out = record {
  ring = is.ring;
  distinct = tt;
  nonnull = is.nonnull;
  free = λ a h. ground (arith, is.free a);
}
clear_pending-IsQueue m p (x ∷ xs) is out =
    let end = mem_apart (last x xs) p (x ∷ xs) (mem-last x xs) out in
    let start = mem_apart x p (x ∷ xs) (mem_head x xs) out in
    let to = next-last m.next m.prev x xs x is.ring.1 in
    let from = prev-last m.next m.prev x xs x is.ring.1 in
    record {
      ring = (
        is.ring.0,
        Segment-retarget m.next m.prev (clear_pending p m).next (clear_pending p m).prev x xs x x
            is.ring.1 is.distinct
            (λ a i n. let apart = mem_apart a p (x ∷ xs) i out in ground arith)
            (λ a i. let apart = mem_apart a p (x ∷ xs) (mem_tail a x xs i) out in ground arith)
            (ground arith) (ground arith),
      );
      distinct = is.distinct;
      nonnull = is.nonnull;
      free = λ a h. ground (arith, is.free a);
    }

mem_without :
    (p a : Ptr) (xs : List Ptr) (x : Ptr)
    → x ≡ p
    → mem p xs ≡ false
    → mem a xs ≡ ((a == x || mem a xs) && not (a == p))
mem_without p a xs x same out = elim (Bool-cases (a == p)) [
  | inl here ↦
      let equal : p ≡ a = ground arith in
      let absent : mem a xs ≡ false = subst (λ b. mem b xs ≡ false) equal out in ground arith
  | inr further ↦ ground arith
]

pub mem-erase :
    (p a : Ptr) (ps : List Ptr) → Distinct ps → mem a (erase p ps) ≡ (mem a ps && not (a == p))
unfolding mem erase
mem-erase p a [] d = refl
mem-erase p a (x ∷ xs) d = elim (Bool-cases (x == p)) [
  | inl here ↦
      let same : x ≡ p = ground arith in
      let out : mem p xs ≡ false = subst (λ b. mem b xs ≡ false) same d.0 in
      rw here (mem_without p a xs x same out)
  | inr further ↦ let rest = mem-erase p a xs d.1 in rw further (ground arith)
]

pub Distinct-erase : (p : Ptr) (ps : List Ptr) → Distinct ps → Distinct (erase p ps)
unfolding mem erase
Distinct-erase p [] d = tt
Distinct-erase p (x ∷ xs) d = elim (Bool-cases (x == p)) [
  | inl here ↦ rw here d.1
  | inr further ↦
      let out = d.0 in rw further (ground (arith, mem-erase p x xs d.1), Distinct-erase p xs d.1)
]

pub length-erase : (p : Ptr) (ps : List Ptr) → mem p ps ≡ true → length (erase p ps) + 1 ≡ length ps
unfolding mem erase
length-erase p [] h = absurd (cc)
length-erase p (x ∷ xs) h = ground (arith, length-erase p xs)
