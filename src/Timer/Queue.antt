-- ===== src/Timer/Queue.antt =====
-- The pending list implements a first-in, first-out queue with no repetitions.
use mediawiki_php_excimer.Prelude.{
  ◌≡◌, ◌≢◌, refl, sym, ap, ◌∙◌, inl, inr, true, false, ◌||◌, List, [], ◌∷◌, ◌++◌, arith, ◌==◌,
  if◌then◌else◌, Bool-cases,
}
use mediawiki_php_excimer.Run.{ok}
use mediawiki_php_excimer.Timer.{Ptr, null, update, PendingList}
use mediawiki_php_excimer.Timer.Pending.{link_last, link_alone, list_enqueue}
use mediawiki_php_excimer.Timer.Ring.{
  mem, mem-last, mem_head, mem_tail, Distinct, last, Segment, Segment-snoc, next-ne_null, prev-last,
}

abbrev pub Ring : PendingList → List Ptr → Type 0
Ring m [] = m.head ≡ null
Ring m (x ∷ xs) = (m.head ≡ x) × Segment m.next m.prev x xs x

-- The list holds the timers `queue`, the first to be dequeued at the front, and the links of all
-- others are NULL.
pub record IsQueue (m : PendingList) (queue : List Ptr) : Type 0 where
  pub ring : Ring m queue
  pub distinct : Distinct queue
  pub nonnull : mem null queue ≡ false
  pub free : (p : Ptr) → mem p queue ≡ false → m.next p ≡ null

linked_last : Ptr → PendingList → PendingList
linked_last t m = record m {
  next = update (update m.next t m.head) (m.prev m.head) t;
  prev = update (update m.prev t (m.prev m.head)) m.head t;
}

link_last_lem :
    (t : Ptr) (m : PendingList)
    → t ≢ null
    → m.head ≢ null
    → m.prev m.head ≢ null
    → link_last t m ≡ ok (linked_last t m)
unfolding link_last linked_last
link_last_lem t m ht hh hp = ground arith

pub mem_apart : (a t : Ptr) (qs : List Ptr) → mem a qs ≡ true → mem t qs ≡ false → a ≢ t
mem_apart a t qs h k e = cc (h, k, ap (λ (p : Ptr). mem p qs) e)

mem-append : (a : Ptr) (xs : List Ptr) (t : Ptr) → mem a (xs ++ t ∷ []) ≡ (mem a xs || a == t)
unfolding mem
mem-append a [] t = ground arith
mem-append a (x ∷ xs) t = ground (arith, mem-append a xs t)

Distinct-append :
    (xs : List Ptr) (t : Ptr) → Distinct xs → mem t xs ≡ false → Distinct (xs ++ t ∷ [])
unfolding mem
Distinct-append [] t d out = (refl, tt)
Distinct-append (x ∷ xs) t d out =
    (ground (arith, mem-append x xs t), Distinct-append xs t d.1 (ground arith))

-- A queued timer has a link, and what the last pointer of the list is.
pub queued-ne_null :
    (m : PendingList) (qs : List Ptr) (t : Ptr) → IsQueue m qs → mem t qs ≡ true → m.next t ≢ null
unfolding mem
queued-ne_null m [] t is i = cc
queued-ne_null m (x ∷ xs) t is i =
    let out = is.nonnull in
    next-ne_null m.next m.prev x xs x t is.ring.1 (ground arith) (ground arith) i

module _ (m : PendingList) (x : Ptr) (xs : List Ptr) (is : IsQueue m (x ∷ xs)) where
  pub head-ne_null : m.head ≢ null
  unfolding mem
  head-ne_null = let out = is.nonnull in let first = is.ring.0 in ground arith

  prev_head : m.prev m.head ≡ last x xs
  prev_head = rw (is.ring.0) (prev-last m.next m.prev x xs x is.ring.1)

  last-ne_null : last x xs ≢ null
  last-ne_null = mem_apart (last x xs) null (x ∷ xs) (mem-last x xs) is.nonnull

module _ (m : PendingList) (t : Ptr) (ht : t ≢ null) where
  link_alone-IsQueue :
      IsQueue m []
      → (m' : PendingList) × (link_alone t m ≡ ok m')
        × IsQueue m' (t ∷ [])
        × (m'.event_count ≡ m.event_count)
  unfolding link_alone mem
  link_alone-IsQueue is = (
    record m { head = t; next = update m.next t t; prev = update m.prev t t },
    ground arith,
    record {
      ring = (refl, (ground arith, ground arith));
      distinct = (refl, tt);
      nonnull = ground arith;
      free = λ p out. ground (arith, is.free p);
    },
    refl,
  )

  link_last-IsQueue :
      (x : Ptr) (xs : List Ptr)
      → IsQueue m (x ∷ xs)
      → mem t (x ∷ xs) ≡ false
      → (m' : PendingList) × (link_last t m ≡ ok m')
        × IsQueue m' (x ∷ (xs ++ t ∷ []))
        × (m'.event_count ≡ m.event_count)
  unfolding linked_last
  link_last-IsQueue x xs is out =
      let h = is.ring.0 in
      let pl = prev_head m x xs is in
      let hn = head-ne_null m x xs is in
      let ln = last-ne_null m x xs is in
      let new_x : x ≢ t = mem_apart x t (x ∷ xs) (mem_head x xs) out in
      let new_last : last x xs ≢ t = mem_apart (last x xs) t (x ∷ xs) (mem-last x xs) out in
      (
        linked_last t m,
        link_last_lem t m ht hn (ground arith),
        record {
          ring = (
            h,
            Segment-snoc m.next m.prev (linked_last t m).next (linked_last t m).prev x xs x t
                is.ring.1 is.distinct
                (λ a i n. let apart = mem_apart a t (x ∷ xs) i out in ground arith)
                (λ a i.
                  let apart = mem_apart a t (x ∷ xs) (mem_tail a x xs i) out in
                  let inner = mem_apart a x xs i is.distinct.0 in ground arith)
                (ground arith) (ground arith) (ground arith) (ground arith),
          );
          distinct = Distinct-append (x ∷ xs) t is.distinct out;
          nonnull = let kept = is.nonnull in mem-append null (x ∷ xs) t ∙ ground arith;
          free = λ p o.
              let split = sym (mem-append p (x ∷ xs) t) ∙ o in
              let absent : mem p (x ∷ xs) ≡ false = ground arith in
              let apart : last x xs ≢ p = mem_apart (last x xs) p (x ∷ xs) (mem-last x xs) absent in
              ground (arith, is.free p);
        },
        refl,
      )

  list_enqueue_alone : m.next t ≡ null → m.head ≡ null → list_enqueue t m ≡ link_alone t m
  unfolding list_enqueue
  list_enqueue_alone free empty = ground arith

  list_enqueue_last : m.next t ≡ null → m.head ≢ null → list_enqueue t m ≡ link_last t m
  unfolding list_enqueue
  list_enqueue_last free some_head = ground arith

  list_enqueue_absent :
      (qs : List Ptr)
      → IsQueue m qs
      → mem t qs ≡ false
      → (m' : PendingList) × (list_enqueue t m ≡ ok m')
        × IsQueue m' (qs ++ t ∷ [])
        × (m'.event_count ≡ m.event_count)
  list_enqueue_absent [] is out =
      let (m', e, is', same) = link_alone-IsQueue is in
      (m', list_enqueue_alone (is.free t out) is.ring ∙ e, is', same)
  list_enqueue_absent (x ∷ xs) is out =
      let (m', e, is', same) = link_last-IsQueue x xs is out in
      (m', list_enqueue_last (is.free t out) (head-ne_null m x xs is) ∙ e, is', same)

  list_enqueue_queued : m.next t ≢ null → list_enqueue t m ≡ ok m
  unfolding list_enqueue
  list_enqueue_queued linked = ground arith

  -- Enqueueing a timer appends it to the queue, unless it is in there.
  pub list_enqueue-IsQueue :
      (qs : List Ptr)
      → IsQueue m qs
      → (m' : PendingList) × (list_enqueue t m ≡ ok m')
        × IsQueue m' (if mem t qs then qs else qs ++ t ∷ [])
        × (m'.event_count ≡ m.event_count)
  list_enqueue-IsQueue qs is = elim (Bool-cases (mem t qs)) [
    | inl queued ↦ (m, list_enqueue_queued (queued-ne_null m qs t is queued), rw queued is, refl)
    | inr absent ↦ rw absent (list_enqueue_absent qs is absent)
  ]
