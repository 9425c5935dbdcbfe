-- ===== src/Timer/Pending.antt =====
-- The pending list of excimer_timer.c, a circular doubly-linked list: excimer_timer_list_enqueue,
-- excimer_timer_list_dequeue, excimer_timer_list_remove, excimer_timer_pending_dequeue,
-- excimer_timer_handle. Each runs under the mutex, so each is one step. The build is not thread-safe
-- (ZTS), so that excimer_timer_tls is one variable for all threads.
use mediawiki_php_excimer.Prelude.{ℕ, ◌+◌, ◌%◌, ◌^◌, true, Option, none, some, ◌==◌, if◌then◌else◌}
use mediawiki_php_excimer.Run.{Run, ok, fault, ◌>>=◌}
use mediawiki_php_excimer.Timer.{Ptr, null, update, PendingList}

-- `p->pending_next = v` and `p->pending_prev = v`.
unfoldable pub set_next : Ptr → Ptr → PendingList → Run PendingList
set_next p v m = if p == null then fault else ok (record m { next = update m.next p v })

unfoldable pub set_prev : Ptr → Ptr → PendingList → Run PendingList
set_prev p v m = if p == null then fault else ok (record m { prev = update m.prev p v })

-- `p->pending_next` and `p->pending_prev`.
unfoldable pub get_next : Ptr → PendingList → Run Ptr
get_next p m = if p == null then fault else ok (m.next p)

unfoldable pub get_prev : Ptr → PendingList → Run Ptr
get_prev p m = if p == null then fault else ok (m.prev p)

abbrev set_head : Ptr → PendingList → PendingList
set_head p m = record m { head = p }

-- Links a timer in before the head, which is the end of the circular list.
unfoldable pub link_last : Ptr → PendingList → Run PendingList
unfolding set_next set_prev get_next get_prev
link_last timer m = do
  m ← set_next timer m.head m
  last ← get_prev m.head m
  m ← set_prev timer last m
  last ← get_prev m.head m
  m ← set_next last timer m
  set_prev m.head timer m

unfoldable pub link_alone : Ptr → PendingList → Run PendingList
unfolding set_next set_prev
link_alone timer m = do m ← set_next timer timer (set_head timer m); set_prev timer timer m

unfoldable pub list_enqueue : Ptr → PendingList → Run PendingList
unfolding get_next
list_enqueue timer m = do
  next ← get_next timer m
  if next == null then if m.head == null then link_alone timer m else link_last timer m else ok m

-- Takes a timer out from between its neighbours.
unfoldable pub relink : Ptr → PendingList → Run PendingList
unfolding set_next set_prev get_next get_prev
relink timer m = do
  next ← get_next timer m
  prev ← get_prev timer m
  m ← set_prev next prev m
  prev ← get_prev timer m
  next ← get_next timer m
  set_next prev next m

unfoldable pub clear_links : Ptr → PendingList → Run PendingList
unfolding set_next set_prev
clear_links timer m = do m ← set_next timer null m; set_prev timer null m

unfoldable pub list_dequeue : PendingList → Run (Option Ptr × PendingList)
unfolding get_next
list_dequeue m = if m.head == null then ok (none, m) else do
  let timer = m.head
  next ← get_next timer m
  m' ←
      (if next == timer
        then ok (set_head null m)
        else do m1 ← relink timer m; next ← get_next timer m1; ok (set_head next m1))
  m'' ← clear_links timer m'
  ok (some timer, m'')

unfoldable pub list_remove : Ptr → PendingList → Run PendingList
unfolding get_next
list_remove timer m = do
  next ← get_next timer m
  if next == null then ok m else do
    m' ←
        (if next == timer then ok (set_head null m) else do
          m1 ← relink timer m
          next ← get_next timer m1
          ok (if m1.head == timer then set_head next m1 else m1))
    clear_links timer m'

abbrev pub set_count : Ptr → ℕ → PendingList → PendingList
set_count timer n m = record m { event_count = update m.event_count timer n }

-- The timer at the head, with its event count, which is reset.
unfoldable pub take_count : Option Ptr × PendingList → Run (Option (Ptr × ℕ) × PendingList)
take_count (none, m) = ok (none, m)
take_count (some timer, m) = ok (some (timer, m.event_count timer), set_count timer 0 m)

unfoldable pub pending_dequeue : PendingList → Run (Option (Ptr × ℕ) × PendingList)
pending_dequeue m = list_dequeue m >>= take_count

-- `timer->event_count += overrun_count + 1`. `event_count` is a `zend_long`, as its 64-bit pattern.
-- `overrun_count` is an `int` that is not negative and below INT_MAX: adding one does not overflow.
abbrev pub add_events : Ptr → ℕ → PendingList → PendingList
add_events timer overrun_count m =
    set_count timer ((m.event_count timer + (overrun_count + 1)) % 2 ^ 64) m

-- The notification of an expiry.
unfoldable pub handle : Ptr → ℕ → PendingList → Run PendingList
handle timer overrun_count m = do
  m' ← list_enqueue timer (add_events timer overrun_count m)
  ok (record m' { vm_interrupt = true })
