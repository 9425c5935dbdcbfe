-- ===== src/Examples/MutexExamples.antt =====
-- A handler thread reports an expiry of the timer 1, up to its unlock, while another waits to report
-- one of the timer 2.
use mediawiki_php_excimer.Prelude.{ℕ, ◌+◌, ◌%◌, ◌^◌, ◌≤◌, ◌≡◌, ◌≢◌, ◌⊎◌, refl, [], ◌∷◌, arith}
use mediawiki_php_excimer.Timer.{update, PendingList}
use mediawiki_php_excimer.Timer.Pending.{add_events, link_alone, list_enqueue}
use mediawiki_php_excimer.Timer.Interleaving.{expires, fresh}
use mediawiki_php_excimer.Timer.Notify.{Pending, Implements, notify}
use mediawiki_php_excimer.Timer.Mutex.{
  nobody, handler, System, entered, locked, counted, queued, released, initial, goto, Reach, start,
  later, enter, lock, count, enqueue, unlock, mutex_lock, mutex_unlock,
}
use mediawiki_php_excimer.Timer.Mutex.Atomic.{Reach-Implements, expired-taken}
use mediawiki_php_excimer.Timer.Mutex.Wakeup.{WillLook, Reach-Noticed}
use mediawiki_php_excimer.Timer.Mutex.Progress.{Moves, owner-Moves}

abbrev memory : PendingList
memory = record (add_events 1 0 fresh) {
  next = update fresh.next 1 1;
  prev = update fresh.prev 1 1;
  head = 1;
}

abbrev both_entered : System
both_entered = goto (goto initial 0 (entered 1 0)) 1 (entered 2 4)

abbrev has_lock : System
has_lock = record (goto both_entered 0 (locked 1 0)) { owner = handler 0 }

abbrev mid_section : System
mid_section = record (goto has_lock 0 (counted 1 0)) { mem = add_events 1 0 fresh }

abbrev end_section : System
end_section = record (goto mid_section 0 (queued 1 0)) { mem = memory }

abbrev left_section : System
left_section = record (goto end_section 0 (released 1)) { owner = nobody }

reach_entered : Reach [] both_entered
reach_entered = later (later start (enter 0 1 0 refl)) (enter 1 2 4 refl)

one_ne_null : ◌≢◌ {A = ℕ} 1 0
one_ne_null e = omega arith

reach_mid : Reach [] mid_section
unfolding mutex_lock
reach_mid = later (later reach_entered (lock 0 1 0 0 refl one_ne_null refl refl)) (count 0 1 0 refl)

reach_left : Reach (expires 1 0 ∷ []) left_section
unfolding list_enqueue link_alone mutex_unlock
reach_left = later (later reach_mid (enqueue 0 1 0 memory refl refl)) (unlock 0 1 0 0 refl refl)

-- The queue holds the timer, and the flag is not yet set.
Reach-Implements_example : Implements left_section.mem ((1, 1) ∷ [])
unfolding notify
Reach-Implements_example = Reach-Implements reach_left refl

expired-taken_example : (0 + left_section.mem.event_count 1) % 2 ^ 64 ≡ 1
expired-taken_example = expired-taken reach_left refl 1

Reach-Noticed_example : (◌≡◌ {A = Pending} ((1, 1) ∷ []) []) ⊎ WillLook left_section
unfolding notify
Reach-Noticed_example = Reach-Noticed reach_left

owner-Moves_example : (2 ≤ 3) × Moves 2 mid_section
owner-Moves_example = owner-Moves reach_mid (λ e. cc)
