-- ===== src/Timer/Removal.antt =====
-- excimer_timer_list_dequeue and excimer_timer_list_remove take a timer out of the queue.
use mediawiki_php_excimer.Prelude.{
  ◌≡◌, ◌≢◌, refl, ap, true, false, none, some, List, [], ◌∷◌, ◌++◌, arith, ◌==◌, if◌then◌else◌,
}
use mathlib.Core.List.{append-nil}
use mediawiki_php_excimer.Run.{ok}
use mediawiki_php_excimer.Timer.{Ptr, null, update, PendingList}
use mediawiki_php_excimer.Timer.Pending.{relink, clear_links, list_dequeue, list_remove}
use mediawiki_php_excimer.Timer.Ring.{
  mem, mem-last, mem_head, mem_tail, last, Segment, Segment-append, Segment-cut, Segment-retarget,
  prev-last, next-last,
}
use mediawiki_php_excimer.Timer.Distinct.{Apart, Distinct-Apart, Apart-Distinct, mem-append_list}
use mediawiki_php_excimer.Timer.Queue.{IsQueue, mem_apart}

-- The links after a timer with other neighbours was taken out.
unfoldable pub unlinked : Ptr → PendingList → PendingList
unlinked t m = record m {
  next = update (update m.next (m.prev t) (m.next t)) t null;
  prev = update (update m.prev (m.next t) (m.prev t)) t null;
}

module _ (m : PendingList) (t : Ptr) (ht : t ≢ null) (other : m.next t ≢ t) where
  pub list_dequeue-unlinked :
      m.head ≡ t
      → m.next t ≢ null
      → m.prev t ≢ null
      → m.prev t ≢ t
      → list_dequeue m ≡ ok (some t, record (unlinked t m) { head = m.next t })
  unfolding list_dequeue relink clear_links unlinked
  list_dequeue-unlinked h hn hp op = ground arith

  pub list_remove-unlinked :
      m.next t ≢ null
      → m.prev t ≢ null
      → m.prev t ≢ t
      → list_remove t m
        ≡ ok (record (unlinked t m) { head = if m.head == t then m.next t else m.head })
  unfolding list_remove relink clear_links unlinked
  list_remove-unlinked hn hp op = ground arith

unfoldable pub alone : Ptr → PendingList → PendingList
alone t m = record m { head = null; next = update m.next t null; prev = update m.prev t null }

module _ (m : PendingList) (t : Ptr) (ht : t ≢ null) (self : m.next t ≡ t) where
  pub list_dequeue-alone : m.head ≡ t → list_dequeue m ≡ ok (some t, alone t m)
  unfolding list_dequeue clear_links alone
  list_dequeue-alone h = ground arith

  pub list_remove-alone : list_remove t m ≡ ok (alone t m)
  unfolding list_remove clear_links alone
  list_remove-alone = ground arith

pub list_dequeue_empty : (m : PendingList) → m.head ≡ null → list_dequeue m ≡ ok (none, m)
unfolding list_dequeue
list_dequeue_empty m h = ground arith

pub list_remove_absent :
    (m : PendingList) (t : Ptr) → t ≢ null → m.next t ≡ null → list_remove t m ≡ ok m
unfolding list_remove
list_remove_absent m t ht h = ground arith

pub alone-IsQueue : (m : PendingList) (t : Ptr) → IsQueue m (t ∷ []) → IsQueue (alone t m) []
unfolding alone mem
alone-IsQueue m t is = record {
  ring = refl;
  distinct = tt;
  nonnull = refl;
  free = λ p out. ground (arith, is.free p);
}

-- The head of a longer list is taken out.
module _ (m : PendingList) (x y : Ptr) (ys : List Ptr) (is : IsQueue m (x ∷ y ∷ ys)) where
  pub second : m.next x ≡ y
  second = is.ring.1.0

  pub end : m.prev x ≡ last y ys
  end = prev-last m.next m.prev y ys x is.ring.1.2

  pub x_apart : (a : Ptr) → mem a (y ∷ ys) ≡ true → a ≢ x
  x_apart a i = mem_apart a x (y ∷ ys) i is.distinct.0

  pub head-IsQueue : IsQueue (record (unlinked x m) { head = m.next x }) (y ∷ ys)
  unfolding unlinked
  head-IsQueue =
      let e = end in
      let n = second in
      let last_apart = x_apart (last y ys) (mem-last y ys) in
      let y_apart = x_apart y (mem_head y ys) in
      record {
        ring = (
          n,
          Segment-retarget m.next m.prev (unlinked x m).next (unlinked x m).prev y ys x y
              is.ring.1.2 is.distinct.1 (λ a i ne. let apart = x_apart a i in ground arith)
              (λ a i.
                let apart = x_apart a (mem_tail a y ys i) in
                let inner = mem_apart a y ys i is.distinct.1.0 in ground arith)
              (ground arith) (ground arith),
        );
        distinct = is.distinct.1;
        nonnull = unfold mem in (let out = is.nonnull in ground arith);
        free = λ p out.
            let inner : last y ys ≢ p = mem_apart (last y ys) p (y ∷ ys) (mem-last y ys) out in
            unfold mem in ground (arith, is.free p);
      }

-- The pointer that follows a timer: the next of the list, or the head again.
abbrev pub first : List Ptr → Ptr → Ptr
first [] x = x
first (y ∷ ys) x = y

next-first :
    (next prev : Ptr → Ptr) (t : Ptr) (ys : List Ptr) (x : Ptr)
    → Segment next prev t ys x
    → next t ≡ first ys x
next-first next prev t [] x s = s.0
next-first next prev t (y ∷ ys) x s = s.0

module _ (x : Ptr) (xs : List Ptr) (t : Ptr) where
  Apart-ne :
      (ys : List Ptr) (a b : Ptr)
      → Apart (x ∷ xs) (t ∷ ys)
      → mem a (x ∷ xs) ≡ true
      → mem b (t ∷ ys) ≡ true
      → a ≢ b
  Apart-ne ys a b r i j e = cc (r.apart a i, j, ap (λ (p : Ptr). mem p (t ∷ ys)) e)

  pub first-ne_self : (ys : List Ptr) → Apart (x ∷ xs) (t ∷ ys) → first ys x ≢ t
  first-ne_self [] r = Apart-ne [] x t r (mem_head x xs) (mem_head t [])
  first-ne_self (y ∷ ys) r = mem_apart y t (y ∷ ys) (mem_head y ys) r.back.0

  first-ne_front :
      (ys : List Ptr) (a : Ptr) → Apart (x ∷ xs) (t ∷ ys) → mem a xs ≡ true → a ≢ first ys x
  first-ne_front [] a r i = mem_apart a x xs i r.front.0
  first-ne_front (y ∷ ys) a r i =
      Apart-ne (y ∷ ys) a y r (mem_tail a x xs i) (mem_tail y t (y ∷ ys) (mem_head y ys))

-- A timer that is not the head is taken out.
module _ (m : PendingList) (x : Ptr) (xs : List Ptr) (t : Ptr) (ys : List Ptr)
    (is : IsQueue m (x ∷ (xs ++ t ∷ ys))) where
  pub parts : Apart (x ∷ xs) (t ∷ ys)
  parts = Distinct-Apart (x ∷ xs) (t ∷ ys) is.distinct

  cut_front : Segment m.next m.prev x xs t
  cut_front = (Segment-cut m.next m.prev x xs t ys x is.ring.1).0

  cut_back : Segment m.next m.prev t ys x
  cut_back = (Segment-cut m.next m.prev x xs t ys x is.ring.1).1

  pub before_t : m.prev t ≡ last x xs
  before_t = prev-last m.next m.prev x xs t cut_front

  pub after_t : m.next t ≡ first ys x
  after_t = next-first m.next m.prev t ys x cut_back

  back_apart : (a : Ptr) → mem a ys ≡ true → a ≢ t
  back_apart a i = mem_apart a t ys i parts.back.0

  pub last_apart : last x xs ≢ t
  last_apart = Apart-ne x xs t ys (last x xs) t parts (mem-last x xs) (mem_head t ys)

  -- The front is led on to the successor of `t`.
  front_retargeted : Segment (unlinked t m).next (unlinked t m).prev x xs (first ys x)
  unfolding unlinked
  front_retargeted =
      let b = before_t in
      let a = after_t in
      let apart = last_apart in
      let self = first-ne_self x xs t ys parts in
      Segment-retarget m.next m.prev (unlinked t m).next (unlinked t m).prev x xs t (first ys x)
        cut_front parts.front
        (λ p i ne. let other = Apart-ne x xs t ys p t parts i (mem_head t ys) in ground arith)
        (λ p i.
          let other = Apart-ne x xs t ys p t parts (mem_tail p x xs i) (mem_head t ys) in
          let inner = first-ne_front x xs t ys p parts i in ground arith)
        (ground arith) (ground arith)

-- The pointers behind `t` keep their links.
module _ (m : PendingList) (x : Ptr) (xs : List Ptr) (t y : Ptr) (ys : List Ptr)
    (is : IsQueue m (x ∷ (xs ++ t ∷ y ∷ ys))) where
  back_kept : Segment (unlinked t m).next (unlinked t m).prev y ys x
  unfolding unlinked
  back_kept =
      let r = parts m x xs t (y ∷ ys) is in
      let s : Segment m.next m.prev y ys x = (cut_back m x xs t (y ∷ ys) is).2 in
      let b = before_t m x xs t (y ∷ ys) is in
      let a = after_t m x xs t (y ∷ ys) is in
      let l = mem-last y ys in
      let l_front =
        Apart-ne x xs t (y ∷ ys) (last x xs) (last y ys) r (mem-last x xs)
          (mem_tail (last y ys) t (y ∷ ys) l) in
      let l_t = mem_apart (last y ys) t (y ∷ ys) l r.back.0 in
      let x_y =
        Apart-ne x xs t (y ∷ ys) x y r (mem_head x xs) (mem_tail y t (y ∷ ys) (mem_head y ys)) in
      let x_t = Apart-ne x xs t (y ∷ ys) x t r (mem_head x xs) (mem_head t (y ∷ ys)) in
      let to_x = next-last m.next m.prev y ys x s in
      let from_x = prev-last m.next m.prev y ys x s in
      Segment-retarget m.next m.prev (unlinked t m).next (unlinked t m).prev y ys x x s r.back.1
        (λ p i ne.
          let front =
            Apart-ne x xs t (y ∷ ys) (last x xs) p r (mem-last x xs) (mem_tail p t (y ∷ ys) i) in
          let other = mem_apart p t (y ∷ ys) i r.back.0 in ground arith)
        (λ p i.
          let other = mem_apart p t (y ∷ ys) (mem_tail p y ys i) r.back.0 in
          let inner = mem_apart p y ys i r.back.1.0 in ground arith)
        (ground arith) (ground arith)

-- The ring without `t`, by whether `t` was the last.
ring_cut :
    (m : PendingList) (x : Ptr) (xs : List Ptr) (t : Ptr) (ys : List Ptr)
    → IsQueue m (x ∷ (xs ++ t ∷ ys))
    → Segment (unlinked t m).next (unlinked t m).prev x (xs ++ ys) x
ring_cut m x xs t [] is = rw append-nil (front_retargeted m x xs t [] is)
ring_cut m x xs t (y ∷ ys) is =
    Segment-append (unlinked t m).next (unlinked t m).prev x xs y ys x
      (front_retargeted m x xs t (y ∷ ys) is) (back_kept m x xs t y ys is)

module _ (m : PendingList) (x : Ptr) (xs : List Ptr) (t : Ptr) (ys : List Ptr)
    (is : IsQueue m (x ∷ (xs ++ t ∷ ys))) where
  middle-free : (p : Ptr) → mem p (x ∷ (xs ++ ys)) ≡ false → (unlinked t m).next p ≡ null
  unfolding unlinked mem
  middle-free p out =
      let b = before_t m x xs t ys is in
      let here = mem-last x xs in
      let absent : mem p (x ∷ xs) ≡ false = ground (arith, mem-append_list p xs ys) in
      let apart = mem_apart (last x xs) p (x ∷ xs) here absent in
      ground (arith, is.free p, mem-append_list p xs ys, mem-append_list p xs (t ∷ ys))

  pub middle-IsQueue : IsQueue (unlinked t m) (x ∷ (xs ++ ys))
  unfolding unlinked
  middle-IsQueue =
      let r = parts m x xs t ys is in
      let out = is.nonnull in
      record {
        ring = (is.ring.0, ring_cut m x xs t ys is);
        distinct = Apart-Distinct (x ∷ xs) ys (record {
          front = r.front;
          back = r.back.1;
          apart = λ a i. unfold mem in ground (arith, r.apart a i);
        });
        nonnull =
            unfold mem in
            ground (arith, mem-append_list null xs ys, mem-append_list null xs (t ∷ ys));
        free = middle-free;
      }
