-- ===== src/Log/Aggregate/Counts.antt =====
-- Counts that are functions of the name, and what a write to the result makes of them.
use mediawiki_php_excimer.Prelude.{
  ℕ, ◌+◌, ◌%◌, ◌^◌, ◌≡◌, refl, sym, ap, ◌∙◌, inl, inr, Bool, true, false, ◌||◌, Option, none, some,
  if◌then◌else◌, Bool-cases,
}
use mathlib.Core.Path.{subst}
use mediawiki_php_excimer.Bytes.{Bytes, bytes_eq, bytes_eq_iff}
use mediawiki_php_excimer.Zend.{HashApi, str, key_eq, find-add, find-assign}
use mediawiki_php_excimer.Log.{Frame}
use mediawiki_php_excimer.Log.Trace.{Zval, long}
use mediawiki_php_excimer.Log.Aggregate.{new_info, Aggregate}
use mediawiki_php_excimer.Log.Aggregate.Info.{IsInfo, new_info-IsInfo}

-- The counts by name, after `term` more for one name.
abbrev pub bump : Bytes → ℕ → (Bytes → ℕ) → Bytes → ℕ
bump name term counts n = if bytes_eq name n then (counts n + term) % 2 ^ 64 else counts n

abbrev pub mark : Bytes → (Bytes → Bool) → Bytes → Bool
mark name seen n = bytes_eq name n || seen n

module _ ⦃Z : HashApi⦄ where
  -- A name that is absent counts nothing.
  pub data Has (found : Option (Z.Table Zval)) (self inclusive : ℕ) : Type 0 where
    absent : found ≡ none → self ≡ 0 → inclusive ≡ 0 → Has found self inclusive
    present :
        (info : Z.Table Zval)
        → found ≡ some info
        → IsInfo info self inclusive
        → Has found self inclusive

  abbrev pub Counts : Z.Table (Z.Table Zval) → (Bytes → ℕ) → (Bytes → ℕ) → Type 0
  Counts result self inclusive = (n : Bytes) → Has (Z.find result (str n)) (self n) (inclusive n)

  abbrev pub Seen : Z.Table Zval → (Bytes → Bool) → Type 0
  Seen unique seen = (n : Bytes) → Z.find unique (str n) ≡ (if seen n then some (long 0) else none)

  pub Has-transport :
      (found found' : Option (Z.Table Zval)) (self inclusive self' inclusive' : ℕ)
      → found' ≡ found
      → self' ≡ self
      → inclusive' ≡ inclusive
      → Has found self inclusive
      → Has found' self' inclusive'
  Has-transport found found' self inclusive self' inclusive' e hs hi h = rw (e, hs, hi) h

  -- The counts after a write under a name that is there.
  pub Counts-assign :
      (result : Z.Table (Z.Table Zval)) (self inclusive self' inclusive' : Bytes → ℕ) (name : Bytes)
      (info info' : Z.Table Zval)
      → Counts result self inclusive
      → Z.find result (str name) ≡ some info
      → IsInfo info' (self' name) (inclusive' name)
      → ((n : Bytes) → bytes_eq name n ≡ false → self' n ≡ self n)
      → ((n : Bytes) → bytes_eq name n ≡ false → inclusive' n ≡ inclusive n)
      → Counts (Z.assign result (str name) info') self' inclusive'
  unfolding key_eq
  Counts-assign result self inclusive self' inclusive' name info info' c e h ks ki n =
      let written = find-assign result (str name) (str n) info' info e in
      elim (Bool-cases (bytes_eq name n)) [
        | inl same ↦
            let equal : name ≡ n = (bytes_eq_iff name n).0 same in
            present info' (rw same at written)
              (subst (λ m. IsInfo info' (self' m) (inclusive' m)) equal h)
        | inr other ↦
            Has-transport (Z.find result (str n)) _ (self n) (inclusive n) (self' n) (inclusive' n)
              (rw other at written) (ks n other) (ki n other) (c n)
      ]

  -- The counts after a new information is added: it counts nothing yet.
  pub Counts-add :
      (result : Z.Table (Z.Table Zval)) (self inclusive : Bytes → ℕ) (name : Bytes) (frame : Frame)
      → Counts result self inclusive
      → Z.find result (str name) ≡ none
      → self name ≡ 0
      → inclusive name ≡ 0
      → Counts (Z.add result (str name) (new_info frame)) self inclusive
  unfolding key_eq
  Counts-add result self inclusive name frame c e hs hi n =
      let added = find-add result (str name) (str n) (new_info frame) e in
      elim (Bool-cases (bytes_eq name n)) [
        | inl same ↦
            let equal : name ≡ n = (bytes_eq_iff name n).0 same in
            let s : self n ≡ 0 = ap self (sym equal) ∙ hs in
            let i : inclusive n ≡ 0 = ap inclusive (sym equal) ∙ hi in
            present (new_info frame) (rw same at added) (rw (s, i) (new_info-IsInfo frame))
        | inr other ↦
            Has-transport (Z.find result (str n)) _ (self n) (inclusive n) (self n) (inclusive n)
              (rw other at added) refl refl (c n)
      ]

  -- What the result and the table of names hold.
  pub record Tallies (a : Aggregate) (self inclusive : Bytes → ℕ) (seen : Bytes → Bool)
      : Type 0 where
    pub counts : Counts a.result self inclusive
    pub names : Seen a.unique seen

  abbrev pub Known : Bytes → Aggregate → Type 0
  Known name a = (info : Z.Table Zval) × (Z.find a.result (str name) ≡ some info)

  self_eq : (name : Bytes) → bytes_eq name name ≡ true
  self_eq name = (bytes_eq_iff name name).1 refl

  pub bump-same :
      (name : Bytes) (term : ℕ) (counts : Bytes → ℕ)
      → (counts name + term) % 2 ^ 64 ≡ bump name term counts name
  bump-same name term counts = rw (self_eq name)

  pub bump-other :
      (name : Bytes) (term : ℕ) (counts : Bytes → ℕ) (n : Bytes)
      → bytes_eq name n ≡ false
      → bump name term counts n ≡ counts n
  bump-other name term counts n h = rw h

  pub find-assign_same :
      (t : Z.Table (Z.Table Zval)) (name : Bytes) (v w : Z.Table Zval)
      → Z.find t (str name) ≡ some w
      → Z.find (Z.assign t (str name) v) (str name) ≡ some v
  unfolding key_eq
  find-assign_same t name v w h = rw (self_eq name) at (find-assign t (str name) (str name) v w h)

  pub find-add_same :
      (t : Z.Table (Z.Table Zval)) (name : Bytes) (v : Z.Table Zval)
      → Z.find t (str name) ≡ none
      → Z.find (Z.add t (str name) v) (str name) ≡ some v
  unfolding key_eq
  find-add_same t name v h = rw (self_eq name) at (find-add t (str name) (str name) v h)

  -- The information of a name that is known has its counts.
  pub Counts-known :
      (result : Z.Table (Z.Table Zval)) (self inclusive : Bytes → ℕ) (name : Bytes)
      (info : Z.Table Zval)
      → Counts result self inclusive
      → Z.find result (str name) ≡ some info
      → IsInfo info (self name) (inclusive name)
  Counts-known result self inclusive name info c e = elim (c name) [
    | absent e' hs hi ↦ absurd (cc)
    | present info' e' h ↦
        let same : info' ≡ info = cc in subst (λ x. IsInfo x (self name) (inclusive name)) same h
  ]
