-- ===== src/Timer.antt =====
-- The memory that excimer_timer.c works on: the fields of the `excimer_timer` structures, by
-- pointer, and the thread-local `excimer_timer_tls`. The pointer 0 is NULL.
pub mod Pending
pub mod Ring
pub mod Distinct
pub mod Queue
pub mod Removal
pub mod Fifo
pub mod Notify
pub mod Interrupt
pub mod Interleaving
pub mod Life
pub mod Lives
pub mod Change
pub mod Keeps
pub mod Reuse
pub mod Arms
pub mod Refusal
pub mod Mutex
use mediawiki_php_excimer.Prelude.{ℕ, Bool, ◌==◌, if◌then◌else◌}

abbrev pub Ptr : Type 0
Ptr = ℕ

abbrev pub null : Ptr
null = 0

-- An assignment to one field of one structure.
abbrev pub update {ℓ} : {A : Type ℓ} → (Ptr → A) → Ptr → A → Ptr → A
update f p v q = if q == p then v else f q

-- The fields that the pending list uses: `pending_next`, `pending_prev` and `event_count` of each
-- timer, `pending_head` of the thread, and the flag `EG(vm_interrupt)`.
pub record PendingList : Type 0 where
  pub next : Ptr → Ptr
  pub prev : Ptr → Ptr
  pub event_count : Ptr → ℕ
  pub head : Ptr
  pub vm_interrupt : Bool
