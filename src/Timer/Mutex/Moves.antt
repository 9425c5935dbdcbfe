-- ===== src/Timer/Mutex/Moves.antt =====
-- How one step of a handler thread or of the virtual machine's thread keeps the invariant, by where
-- the thread stands in regard to its critical section.
use mathlib.Core.Path.{subst}
use mediawiki_php_excimer.Prelude.{
  ℕ, ◌≡◌, ◌≢◌, ◌⊎◌, refl, sym, inl, inr, Bool, true, false, ◌==◌, ==_iff, Bool-cases,
}
use mediawiki_php_excimer.Timer.{update, PendingList}
use mediawiki_php_excimer.Timer.Notify.{Pending, Implements}
use mediawiki_php_excimer.Timer.Mutex.{
  Owner, nobody, handler, vm, Pc, asleep, entered, locked, counted, queued, released, VmPc, running,
  asks, holds, dequeued, took, returned, System, goto,
}
use mediawiki_php_excimer.Timer.Mutex.Section.{
  critical, vm_critical, Section, VmSection, Owned, Inv, update_here,
}

Section-outside : (p : Pc) (m : PendingList) (q : Pending) → critical p ≡ false → Section p m q → ⊥
Section-outside asleep m q c h = h
Section-outside (entered t o) m q c h = h
Section-outside (locked t o) m q c h = cc
Section-outside (counted t o) m q c h = cc
Section-outside (queued t o) m q c h = cc
Section-outside (released t) m q c h = h

VmSection-outside :
    (p : VmPc) (m : PendingList) (q : Pending) → vm_critical p ≡ false → VmSection p m q → ⊥
VmSection-outside running m q c h = h
VmSection-outside asks m q c h = h
VmSection-outside holds m q c h = cc
VmSection-outside (dequeued r) m q c h = cc
VmSection-outside (took r) m q c h = cc
VmSection-outside (returned r) m q c h = h

module _ {q : Pending} {s : System} (inv : Inv q s) where
  -- A handler thread in its critical section has the mutex.
  pub Section-holds : (i : ℕ) (p : Pc) → s.pcs i ≡ p → critical p ≡ true → Section p s.mem q
  Section-holds i p e c =
      let has : s.owner ≡ handler i = inv.exclusive i (rw e c) in
      rw e at (subst (λ o. Owned o s q) has inv.owned)

  pub VmSection-holds : (p : VmPc) → s.vm_pc ≡ p → vm_critical p ≡ true → VmSection p s.mem q
  VmSection-holds p e c =
      let has : s.owner ≡ vm = inv.vm_exclusive (rw e c) in
      rw e at (subst (λ o. Owned o s q) has inv.owned)

  -- Outside of every critical section.
  pub unowned : s.owner ≡ nobody → Implements s.mem q
  unowned e = subst (λ o. Owned o s q) e inv.owned

  -- Which threads are in a critical section after one of them has moved.
  still_critical :
      (i : ℕ) (p : Pc) (j : ℕ)
      → critical (update s.pcs i p j) ≡ true
      → ((j ≡ i) × (critical p ≡ true)) ⊎ ((j ≢ i) × (critical (s.pcs j) ≡ true))
  still_critical i p j c = elim (Bool-cases (j == i)) [
    | inl same ↦ inl ((==_iff j i).0 same, rw same at c)
    | inr other ↦ inr (λ e. cc (other, (==_iff j i).1 e), rw other at c)
  ]

  module _ (i : ℕ) (p p' : Pc) (e : s.pcs i ≡ p) where
    -- A step inside of the critical section.
    pub inside-Inv :
        (m : PendingList)
        → critical p ≡ true
        → critical p' ≡ true
        → Section p' m q
        → Inv q (record (goto s i p') { mem = m })
    inside-Inv m c c' sec =
        let has : s.owner ≡ handler i = inv.exclusive i (rw e c) in
        record {
          owned =
              subst (λ o. Owned o (record (goto s i p') { mem = m }) q) (sym has)
                (rw (update_here s.pcs i p') sec);
          exclusive = λ j cj. elim (still_critical i p' j cj) [
            | inl (same, x) ↦ rw same has
            | inr (other, x) ↦ inv.exclusive j x
          ];
          vm_exclusive = inv.vm_exclusive;
        }

    -- A step that leaves it, and makes the queue `q'`.
    pub leave-Inv :
        (q' : Pending)
        → critical p ≡ true
        → critical p' ≡ false
        → Implements s.mem q'
        → Inv q' (record (goto s i p') { owner = nobody })
    leave-Inv q' c c' i' =
        let has : s.owner ≡ handler i = inv.exclusive i (rw e c) in
        record {
          owned = i';
          exclusive = λ j cj. elim (still_critical i p' j cj) [
            | inl (same, x) ↦ cc
            | inr (other, x) ↦ let theirs = inv.exclusive j x in absurd (other (cc))
          ];
          vm_exclusive = λ v. let theirs = inv.vm_exclusive v in cc;
        }

    -- A step that enters it.
    pub lock-Inv :
        critical p ≡ false
        → s.owner ≡ nobody
        → Section p' s.mem q
        → Inv q (record (goto s i p') { owner = handler i })
    lock-Inv c free sec = record {
      owned = rw (update_here s.pcs i p') sec;
      exclusive = λ j cj. elim (still_critical i p' j cj) [
        | inl (same, x) ↦ rw same refl
        | inr (other, x) ↦ let theirs = inv.exclusive j x in cc
      ];
      vm_exclusive = λ v. let theirs = inv.vm_exclusive v in cc;
    }

    -- A step elsewhere.
    Owned-elsewhere :
        (b : Bool) (o : Owner)
        → critical p ≡ false
        → Owned o s q
        → Owned o (record (goto s i p') { vm_interrupt = b }) q
    Owned-elsewhere b nobody c h = h
    Owned-elsewhere b vm c h = h
    Owned-elsewhere b (handler k) c h = elim (Bool-cases (k == i)) [
      | inl same ↦
          let here : k ≡ i = (==_iff k i).0 same in
          absurd (Section-outside p s.mem q c (rw (here, e) at h))
      | inr other ↦ rw other h
    ]

    pub elsewhere-Inv :
        (b : Bool)
        → critical p ≡ false
        → critical p' ≡ false
        → Inv q (record (goto s i p') { vm_interrupt = b })
    elsewhere-Inv b c c' = record {
      owned = Owned-elsewhere b s.owner c inv.owned;
      exclusive = λ j cj. elim (still_critical i p' j cj) [
        | inl (same, x) ↦ cc
        | inr (other, x) ↦ inv.exclusive j x
      ];
      vm_exclusive = inv.vm_exclusive;
    }

  module _ (p p' : VmPc) (e : s.vm_pc ≡ p) where
    pub vm_inside-Inv :
        (m : PendingList)
        → vm_critical p ≡ true
        → VmSection p' m q
        → Inv q (record s { mem = m; vm_pc = p' })
    vm_inside-Inv m c sec =
        let has : s.owner ≡ vm = inv.vm_exclusive (rw e c) in
        record {
          owned = subst (λ o. Owned o (record s { mem = m; vm_pc = p' }) q) (sym has) sec;
          exclusive = inv.exclusive;
          vm_exclusive = λ c'. has;
        }

    pub vm_leave-Inv :
        (q' : Pending)
        → vm_critical p ≡ true
        → vm_critical p' ≡ false
        → Implements s.mem q'
        → Inv q' (record s { owner = nobody; vm_pc = p' })
    vm_leave-Inv q' c c' i' =
        let has : s.owner ≡ vm = inv.vm_exclusive (rw e c) in
        record {
          owned = i';
          exclusive = λ j cj. let theirs = inv.exclusive j cj in cc;
          vm_exclusive = λ v. cc;
        }

    pub vm_lock-Inv :
        s.owner ≡ nobody → VmSection p' s.mem q → Inv q (record s { owner = vm; vm_pc = p' })
    vm_lock-Inv free sec = record {
      owned = sec;
      exclusive = λ j cj. let theirs = inv.exclusive j cj in cc;
      vm_exclusive = λ v. refl;
    }

    Owned-vm_elsewhere :
        (b : Bool) (d : ℕ) (o : Owner)
        → vm_critical p ≡ false
        → Owned o s q
        → Owned o (record s { vm_interrupt = b; vm_pc = p'; depth = d }) q
    Owned-vm_elsewhere b d nobody c h = h
    Owned-vm_elsewhere b d (handler k) c h = h
    Owned-vm_elsewhere b d vm c h = absurd (VmSection-outside p s.mem q c (rw e at h))

    pub vm_elsewhere-Inv :
        (b : Bool) (d : ℕ)
        → vm_critical p ≡ false
        → vm_critical p' ≡ false
        → Inv q (record s { vm_interrupt = b; vm_pc = p'; depth = d })
    vm_elsewhere-Inv b d c c' = record {
      owned = Owned-vm_elsewhere b d s.owner c inv.owned;
      exclusive = inv.exclusive;
      vm_exclusive = λ v. cc;
    }
