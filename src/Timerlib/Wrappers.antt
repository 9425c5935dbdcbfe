-- ===== src/Timerlib/Wrappers.antt =====
-- The small functions of timerlib around the system: the clocks of timerlib_posix.c and
-- timerlib_kqueue.c, the signal masks around pthread_create, and timerlib_pthread_mutex.h.
use mediawiki_php_excimer.Prelude.{
  ℕ, ◌≡◌, refl, Bool, true, false, Option, none, some, ◌==◌, if◌then◌else◌, Option-cases, inl, inr,
}
use mediawiki_php_excimer.Timespec.{Timespec}
use mediawiki_php_excimer.Timerlib.{no_time}
use mediawiki_php_excimer.Timer.Mutex.{MutexResult, proceeds, aborts}

-- What the clocks of the system say. `none` is an error.
pub record ClockApi : Type 1 where
  pub World : Type 0
  pub clock_monotonic : ℕ
  pub clock_gettime : ℕ → World → Option Timespec
  -- of the calling thread
  pub pthread_getcpuclockid : World → Option ℕ

module _ ⦃C : ClockApi⦄ where
  -- timerlib_map_clock: TIMERLIB_REAL is 0.
  unfoldable pub map_clock : ℕ → C.World → ℕ
  map_clock clock w =
      if clock == 0
      then C.clock_monotonic
      else elim (C.pthread_getcpuclockid w) [ none ↦ C.clock_monotonic | some c ↦ c ]

  -- timerlib_clock_get_time of the POSIX backend: whether it succeeds, and the time.
  unfoldable pub posix_clock_get_time : ℕ → C.World → Bool × Timespec
  posix_clock_get_time clock w = elim (C.clock_gettime (map_clock clock w) w) [
    | none ↦ (false, no_time)
    | some time ↦ (true, time)
  ]

  -- That of the kqueue backend, which has one clock and does not write the time at an error;
  -- `memory` is what it points to.
  unfoldable pub kqueue_clock_get_time : ℕ → Timespec → C.World → Bool × Timespec
  kqueue_clock_get_time clock memory w = elim (C.clock_gettime C.clock_monotonic w) [
    | none ↦ (false, memory)
    | some time ↦ (true, time)
  ]

  -- For the real clock the backends agree on the success and, where the memory was cleared, on the time.
  pub clocks_agree : (w : C.World) → posix_clock_get_time 0 w ≡ kqueue_clock_get_time 0 no_time w
  unfolding posix_clock_get_time kqueue_clock_get_time map_clock
  clocks_agree w = elim (Option-cases (C.clock_gettime C.clock_monotonic w)) [
    | inl e ↦ rw (e, posix_clock_get_time, kqueue_clock_get_time) refl
    | inr (time, e) ↦ rw (e, posix_clock_get_time, kqueue_clock_get_time) refl
  ]

-- timerlib_mutex_lock_func and timerlib_mutex_unlock_func, by the result of the pthread function.
unfoldable pub lock_func : ℕ → MutexResult
lock_func result = if result == 0 then proceeds else aborts

unfoldable pub unlock_func : ℕ → MutexResult
unlock_func result = if result == 0 then proceeds else aborts

-- Signal masks. Some signals cannot be blocked, so a thread need not get all of a set.
pub record MaskApi : Type 1 where
  pub Mask : Type 0
  -- `sigfillset`
  pub full : Mask
  -- pthread_sigmask: `SIG_BLOCK`, on the mask of a thread and a set, and `SIG_SETMASK`, which gives a
  -- thread the same as an attribute
  pub block : Mask → Mask → Mask
  pub set : Mask → Mask
  pub block-full : (mask : Mask) → block mask full ≡ set full

module _ ⦃M : MaskApi⦄ where
  -- timerlib_block_signals and timerlib_unblock_signals with glibc 2.32 or later: the mask that the
  -- attribute names, the mask of the calling thread, and the saved one.
  unfoldable pub block_by_attr : M.Mask → M.Mask → Option M.Mask × M.Mask × M.Mask
  block_by_attr mask old = (some M.full, mask, old)

  unfoldable pub unblock_by_attr : M.Mask → M.Mask → M.Mask
  unblock_by_attr mask old = mask

  -- And with an earlier one.
  unfoldable pub block_by_mask : M.Mask → M.Mask → Option M.Mask × M.Mask × M.Mask
  block_by_mask mask old = (none, M.block mask M.full, mask)

  unfoldable pub unblock_by_mask : M.Mask → M.Mask → M.Mask
  unblock_by_mask mask old = M.set old

  -- The mask of a new thread: that of the attribute, or that of the thread that creates it.
  abbrev pub inherited : Option M.Mask → M.Mask → M.Mask
  inherited none mask = mask
  inherited (some attr) mask = M.set attr

  -- What timerlib_timer_init does around pthread_create: the masks of the handler thread and of the
  -- calling thread after it.
  unfoldable pub masks_by_attr : M.Mask → M.Mask → M.Mask × M.Mask
  masks_by_attr mask old =
      let blocked = block_by_attr mask old in
      (inherited blocked.0 blocked.1, unblock_by_attr blocked.1 blocked.2)

  unfoldable pub masks_by_mask : M.Mask → M.Mask → M.Mask × M.Mask
  masks_by_mask mask old =
      let blocked = block_by_mask mask old in
      (inherited blocked.0 blocked.1, unblock_by_mask blocked.1 blocked.2)

  -- With every glibc the handler thread starts with all signals blocked that can be, and the calling
  -- thread gets its mask back, if it is one that a thread can have.
  pub masks_agree :
      (mask old : M.Mask)
      → M.set mask ≡ mask
      → (masks_by_attr mask old ≡ (M.set M.full, mask))
        × (masks_by_mask mask old ≡ (M.set M.full, mask))
  unfolding masks_by_attr masks_by_mask block_by_attr unblock_by_attr block_by_mask unblock_by_mask
  masks_agree mask old has = (refl, rw (M.block-full mask, has) refl)
