-- ===== src/Timer/Reuse.antt =====
-- How the objects that own a timer initialise it again, as ExcimerProfiler_start and
-- ExcimerTimer_start of excimer.c do: it is destroyed if it is valid, and initialised.
use mediawiki_php_excimer.Prelude.{
  ℕ, ◌≤◌, ◌≡◌, ◌≢◌, ◌∙◌, inl, inr, Bool, false, List, ◌∷◌, arith, ◌==◌, if◌then◌else◌, Bool-cases,
}
use mediawiki_php_excimer.Run.{ok}
use mediawiki_php_excimer.Timerlib.{PosixApi}
use mediawiki_php_excimer.Timerlib.Started.{Reliable, rounds}
use mediawiki_php_excimer.Timer.{Ptr, null}
use mediawiki_php_excimer.Timer.Ring.{mem}
use mediawiki_php_excimer.Timer.Distinct.{erase, erase-absent}
use mediawiki_php_excimer.Timer.Life.{Thread, timer_init, timer_destroy}
use mediawiki_php_excimer.Timer.Lives.{Lives, mem-erase}
use mediawiki_php_excimer.Timer.Keeps.{timer_destroy-Lives, timer_init-Lives}

module _ ⦃O : PosixApi⦄ where
  -- The invariant holds, and the timers but one are valid as before.
  pub record Spares (st : Thread O) (live : List Ptr) (p : Ptr) : Type 0 where
    pub live' : List Ptr
    pub lives : Lives st live'
    pub others : (q : Ptr) → (q == p) ≡ false → mem q live' ≡ mem q live

  -- The timer is destroyed if it is valid.
  pub destroy_valid-Lives :
      (st : Thread O) (live : List Ptr) (p : Ptr)
      → p ≢ null
      → Lives st live
      → (st' : Thread O) × ((if (st.timers p).is_valid then timer_destroy p st else ok st) ≡ ok st')
        × Lives st' (erase p live)
  destroy_valid-Lives st live p hp v = elim (Bool-cases (mem p live)) [
    | inl i ↦
        let (st', destroyed, v', out) = timer_destroy-Lives st live p hp v in
        (st', rw (v.valid p, i) destroyed, v')
    | inr i ↦ (st, rw (v.valid p, i), rw (erase-absent p live i) v)
  ]

  mem-cons_other : (q p : Ptr) (ps : List Ptr) → (q == p) ≡ false → mem q (p ∷ ps) ≡ mem q ps
  unfolding mem
  mem-cons_other q p ps h = rw h

  mem-erase_other :
      (q p : Ptr) (live : List Ptr)
      → (st : Thread O) → Lives st live
      → (q == p) ≡ false
      → mem q (erase p live) ≡ mem q live
  mem-erase_other q p live st v h = ground (arith, mem-erase p q live v.distinct)

  pub init_again-Spares :
      (st st1 : Thread O) (live : List Ptr) (p : Ptr) (event_type fuel : ℕ)
      → Reliable
      → p ≢ null
      → Lives st live
      → Lives st1 (erase p live)
      → rounds st1.world ≤ fuel
      → (b : Bool) × (st' : Thread O) × (timer_init fuel p event_type st1 ≡ ok (b, st'))
        × (s : Spares st' live p) × (mem p s.live' ≡ b)
  init_again-Spares st st1 live p event_type fuel reliable hp v v1 enough =
      let out : mem p (erase p live) ≡ false = ground (arith, mem-erase p p live v.distinct) in
      let (b, st', done, v') =
        timer_init-Lives fuel st1 (erase p live) p event_type reliable hp out enough v1 in
      (
        b,
        st',
        done,
        record {
          live' = if b then p ∷ erase p live else erase p live;
          lives = v';
          others = λ q h. elim (Bool-cases b) [
            | inl yes_ ↦
                rw yes_ (mem-cons_other q p (erase p live) h ∙ mem-erase_other q p live st v h)
            | inr no_ ↦ rw no_ (mem-erase_other q p live st v h)
          ];
        },
        elim (Bool-cases b) [
          | inl yes_ ↦ rw yes_ (unfold mem in ground arith)
          | inr no_ ↦ rw no_ out
        ],
      )
