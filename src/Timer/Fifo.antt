-- ===== src/Timer/Fifo.antt =====
-- What excimer_timer_list_dequeue and excimer_timer_list_remove promise.
use mediawiki_php_excimer.Prelude.{
  ◌≡◌, ◌≢◌, refl, ◌∙◌, inl, inr, true, false, Option, none, some, List, [], ◌∷◌, ◌++◌, arith, ◌==◌,
  Bool-cases,
}
use mathlib.Core.Path.{subst}
use mediawiki_php_excimer.Run.{ok}
use mediawiki_php_excimer.Timer.{Ptr, null, PendingList}
use mediawiki_php_excimer.Timer.Pending.{list_dequeue, list_remove}
use mediawiki_php_excimer.Timer.Ring.{mem, mem-last, mem_head, mem_tail, last}
use mediawiki_php_excimer.Timer.Distinct.{erase, mem-Found, erase-absent, mem-append_list}
use mediawiki_php_excimer.Timer.Queue.{IsQueue, mem_apart}
use mediawiki_php_excimer.Timer.Removal.{
  unlinked, alone, list_dequeue-unlinked, list_remove-unlinked, list_dequeue-alone,
  list_remove-alone, list_dequeue_empty, list_remove_absent, alone-IsQueue, second, end, x_apart,
  head-IsQueue, before_t, after_t, last_apart, first-ne_self, parts, first, middle-IsQueue,
}

abbrev pub front : List Ptr → Option Ptr
front [] = none
front (x ∷ xs) = some x

abbrev pub rest : List Ptr → List Ptr
rest [] = []
rest (x ∷ xs) = xs

ne_null : (m : PendingList) (qs : List Ptr) (p : Ptr) → IsQueue m qs → mem p qs ≡ true → p ≢ null
ne_null m qs p is i = mem_apart p null qs i is.nonnull

-- Dequeueing returns the timer at the front of the queue, if there is one, and leaves the others in
-- their order; no event count changes.
pub list_dequeue-IsQueue :
    (m : PendingList) (qs : List Ptr)
    → IsQueue m qs
    → (m' : PendingList) × (list_dequeue m ≡ ok (front qs, m'))
      × IsQueue m' (rest qs)
      × (m'.event_count ≡ m.event_count)
list_dequeue-IsQueue m [] is = (m, list_dequeue_empty m is.ring, is, refl)
list_dequeue-IsQueue m (x ∷ []) is = (
  alone x m,
  list_dequeue-alone m x (ne_null m (x ∷ []) x is (mem_head x [])) is.ring.1.0 is.ring.0,
  alone-IsQueue m x is,
  unfold alone in refl,
)
list_dequeue-IsQueue m (x ∷ y ∷ ys) is =
    let n = second m x y ys is in
    let e = end m x y ys is in
    let x_null = ne_null m (x ∷ y ∷ ys) x is (mem_head x (y ∷ ys)) in
    let y_null = ne_null m (x ∷ y ∷ ys) y is (mem_tail y x (y ∷ ys) (mem_head y ys)) in
    let l_null =
      ne_null m (x ∷ y ∷ ys) (last y ys) is (mem_tail (last y ys) x (y ∷ ys) (mem-last y ys)) in
    let y_x = x_apart m x y ys is y (mem_head y ys) in
    let l_x = x_apart m x y ys is (last y ys) (mem-last y ys) in
    (
      record (unlinked x m) { head = m.next x },
      list_dequeue-unlinked m x x_null (ground arith) is.ring.0 (ground arith) (ground arith)
          (ground arith),
      head-IsQueue m x y ys is,
      unfold unlinked in refl,
    )

-- The outcome of removing `t`.
abbrev Removed : PendingList → List Ptr → Ptr → Type 0
Removed m qs t =
    (m' : PendingList) × (list_remove t m ≡ ok m')
    × IsQueue m' (erase t qs)
    × (m'.event_count ≡ m.event_count)

remove_absent :
    (m : PendingList) (qs : List Ptr) (t : Ptr)
    → t ≢ null
    → IsQueue m qs
    → mem t qs ≡ false
    → Removed m qs t
remove_absent m qs t ht is out =
    (m, list_remove_absent m t ht (is.free t out), rw (erase-absent t qs out) is, refl)

same_test : (x : Ptr) → (x == x) ≡ true
same_test x = ground arith

remove_head :
    (m : PendingList) (x : Ptr) (xs : List Ptr) → IsQueue m (x ∷ xs) → Removed m (x ∷ xs) x
unfolding erase
remove_head m x [] is = (
  alone x m,
  list_remove-alone m x (ne_null m (x ∷ []) x is (mem_head x [])) is.ring.1.0,
  rw (same_test x) (alone-IsQueue m x is),
  unfold alone in refl,
)
remove_head m x (y ∷ ys) is =
    let n = second m x y ys is in
    let e = end m x y ys is in
    let x_null = ne_null m (x ∷ y ∷ ys) x is (mem_head x (y ∷ ys)) in
    let y_null = ne_null m (x ∷ y ∷ ys) y is (mem_tail y x (y ∷ ys) (mem_head y ys)) in
    let l_null =
      ne_null m (x ∷ y ∷ ys) (last y ys) is (mem_tail (last y ys) x (y ∷ ys) (mem-last y ys)) in
    let y_x = x_apart m x y ys is y (mem_head y ys) in
    let l_x = x_apart m x y ys is (last y ys) (mem-last y ys) in
    let h = is.ring.0 in
    let removed =
      list_remove-unlinked m x x_null (ground arith) (ground arith) (ground arith) (ground arith) in
    (
      record (unlinked x m) { head = m.next x },
      removed ∙ ground arith,
      rw (same_test x) (head-IsQueue m x y ys is),
      unfold unlinked in refl,
    )

mem-first :
    (x : Ptr) (xs : List Ptr) (t : Ptr) (ys : List Ptr)
    → mem (first ys x) (x ∷ (xs ++ t ∷ ys)) ≡ true
mem-first x xs t [] = mem_head x (xs ++ t ∷ [])
mem-first x xs t (y ∷ ys) = unfold mem in ground (arith, mem-append_list y xs (t ∷ y ∷ ys))

mem-last_front :
    (x : Ptr) (xs : List Ptr) (t : Ptr) (ys : List Ptr)
    → mem (last x xs) (x ∷ (xs ++ t ∷ ys)) ≡ true
mem-last_front x xs t ys =
    let here = mem-last x xs in
    unfold mem in ground (arith, mem-append_list (last x xs) xs (t ∷ ys))

-- The removal at a known place behind the head.
remove_there :
    (m : PendingList) (x : Ptr) (xs : List Ptr) (t : Ptr) (ys : List Ptr)
    → IsQueue m (x ∷ (xs ++ t ∷ ys))
    → (m' : PendingList) × (list_remove t m ≡ ok m')
      × IsQueue m' (x ∷ (xs ++ ys))
      × (m'.event_count ≡ m.event_count)
remove_there m x xs t ys is =
    let qs : List Ptr = x ∷ (xs ++ t ∷ ys) in
    let b = before_t m x xs t ys is in
    let a = after_t m x xs t ys is in
    let f_t = first-ne_self x xs t ys (parts m x xs t ys is) in
    let l_t = last_apart m x xs t ys is in
    let f_null = ne_null m qs (first ys x) is (mem-first x xs t ys) in
    let l_null = ne_null m qs (last x xs) is (mem-last_front x xs t ys) in
    let t_in : mem t qs ≡ true = unfold mem in ground (arith, mem-append_list t xs (t ∷ ys)) in
    let t_null = ne_null m qs t is t_in in
    let t_tail : mem t (xs ++ t ∷ ys) ≡ true =
      unfold mem in ground (arith, mem-append_list t xs (t ∷ ys)) in
    let t_x : t ≢ x = mem_apart t x (xs ++ t ∷ ys) t_tail is.distinct.0 in
    let h = is.ring.0 in
    let removed =
      list_remove-unlinked m t t_null (ground arith) (ground arith) (ground arith) (ground arith) in
    (
      unlinked t m,
      removed ∙ unfold unlinked in ground arith,
      middle-IsQueue m x xs t ys is,
      unfold unlinked in refl,
    )

remove_middle :
    (m : PendingList) (x : Ptr) (xs : List Ptr) (t : Ptr)
    → IsQueue m (x ∷ xs)
    → (x == t) ≡ false
    → mem t xs ≡ true
    → Removed m (x ∷ xs) t
unfolding erase
remove_middle m x xs t is differs i =
    let f = mem-Found t xs i in
    let is' = subst (λ l. IsQueue m (x ∷ l)) f.split is in
    let (m', e, q, c) = remove_there m x f.before t f.after is' in
    (m', e, rw differs (rw f.rest q), c)

remove_present :
    (m : PendingList) (qs : List Ptr) (t : Ptr) → IsQueue m qs → mem t qs ≡ true → Removed m qs t
unfolding mem
remove_present m [] t is i = absurd (cc)
remove_present m (x ∷ xs) t is i = elim (Bool-cases (x == t)) [
  | inl here ↦
      let same : x ≡ t = ground arith in
      subst (λ (a : Ptr). Removed m (x ∷ xs) a) same (remove_head m x xs is)
  | inr further ↦ remove_middle m x xs t is further (ground arith)
]

-- Removing a timer takes it out of the queue, wherever it stands, and leaves the others in their
-- order; a timer that is not in the queue changes nothing. No event count changes.
pub list_remove-IsQueue :
    (m : PendingList) (qs : List Ptr) (t : Ptr)
    → t ≢ null
    → IsQueue m qs
    → (m' : PendingList) × (list_remove t m ≡ ok m')
      × IsQueue m' (erase t qs)
      × (m'.event_count ≡ m.event_count)
list_remove-IsQueue m qs t ht is = elim (Bool-cases (mem t qs)) [
  | inl present ↦ remove_present m qs t is present
  | inr absent ↦ remove_absent m qs t ht is absent
]
