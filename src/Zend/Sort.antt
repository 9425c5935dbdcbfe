-- ===== src/Zend/Sort.antt =====
-- Sorting a list of pairs by its values: the pairs that an earlier one with the same key hides are
-- dropped, so that a lookup finds what it found before.
use mediawiki_php_excimer.Prelude.{
  ◌≡◌, sym, ap, ◌∙◌, refl, inl, inr, Bool, true, none, some, List, [], ◌∷◌, arith, if◌then◌else◌,
  Bool-cases,
}
use mediawiki_php_excimer.Zend.{
  Key, key_eq, key_eq_iff, lookup, AllFrom, IsSorted, AllPairs, IsOrder,
}

none-ne : {V : Type 0} {v : V} → none ≡ some v → ⊥
none-ne h = cc

module _ {V : Type 0} (le : V → V → Bool) where
  unfoldable pub without : Key → List (Key × V) → List (Key × V)
  without k [] = []
  without k ((j, v) ∷ m) = let rest = without k m in if key_eq j k then rest else (j, v) ∷ rest

  unfoldable pub place : Key → V → List (Key × V) → List (Key × V)
  place k v [] = (k, v) ∷ []
  place k v ((j, w) ∷ m) = if le v w then (k, v) ∷ (j, w) ∷ m else (j, w) ∷ place k v m

  -- The first pair of each key.
  unfoldable pub dedupe : List (Key × V) → List (Key × V)
  dedupe [] = []
  dedupe ((k, v) ∷ m) = (k, v) ∷ without k (dedupe m)

  unfoldable pub place_all : List (Key × V) → List (Key × V)
  place_all [] = []
  place_all ((k, v) ∷ m) = place k v (place_all m)

  unfoldable pub sort : List (Key × V) → List (Key × V)
  sort m = place_all (dedupe m)

  -- No pair hides another.
  abbrev Unique : List (Key × V) → Type 0
  Unique [] = Unit
  Unique ((k, v) ∷ m) = (lookup k m ≡ none) × Unique m

  lookup-without :
      (k j : Key) (m : List (Key × V))
      → lookup j (without k m) ≡ (if key_eq k j then none else lookup j m)
  unfolding without lookup
  lookup-without k j [] = ground arith
  lookup-without k j ((i, v) ∷ m) =
      ground (arith, lookup-without k j m, key_eq_iff i k, key_eq_iff i j, key_eq_iff k j)

  lookup-without-none :
      (k j : Key) (m : List (Key × V)) → lookup j m ≡ none → lookup j (without k m) ≡ none
  lookup-without-none k j m h = ground (arith, lookup-without k j m)

  Unique-without : (k : Key) (m : List (Key × V)) → Unique m → Unique (without k m)
  unfolding without
  Unique-without k [] h = tt
  Unique-without k ((j, v) ∷ m) h = elim (Bool-cases (key_eq j k)) [
    | inl same ↦ rw same (Unique-without k m h.1)
    | inr other ↦ rw other (lookup-without-none k j m h.0, Unique-without k m h.1)
  ]

  Unique-dedupe : (m : List (Key × V)) → Unique (dedupe m)
  unfolding dedupe
  Unique-dedupe [] = tt
  Unique-dedupe ((k, v) ∷ m) = (
    ground (arith, lookup-without k k (dedupe m), key_eq_iff k k),
    Unique-without k (dedupe m) (Unique-dedupe m),
  )

  lookup-dedupe : (m : List (Key × V)) (k : Key) → lookup k (dedupe m) ≡ lookup k m
  unfolding dedupe lookup
  lookup-dedupe [] k = refl
  lookup-dedupe ((j, v) ∷ m) k = ground (arith, lookup-without j k (dedupe m), lookup-dedupe m k)

  lookup-place :
      (k j : Key) (v : V) (m : List (Key × V))
      → lookup k m ≡ none
      → lookup j (place k v m) ≡ (if key_eq k j then some v else lookup j m)
  unfolding place lookup
  lookup-place k j v [] h = refl
  lookup-place k j v ((i, w) ∷ m) h =
      ground (arith, lookup-place k j v m, key_eq_iff i k, key_eq_iff i j, key_eq_iff k j)

  lookup-place_all : (m : List (Key × V)) (k : Key) → Unique m → lookup k (place_all m) ≡ lookup k m
  unfolding place_all lookup
  lookup-place_all [] k u = refl
  lookup-place_all ((j, v) ∷ m) k u =
      let absent : lookup j (place_all m) ≡ none = lookup-place_all m j u.1 ∙ u.0 in
      ground (arith, lookup-place j k v (place_all m), lookup-place_all m k u.1)

  pub lookup-sort : (m : List (Key × V)) (k : Key) → lookup k (sort m) ≡ lookup k m
  unfolding sort
  lookup-sort m k = lookup-place_all (dedupe m) k (Unique-dedupe m) ∙ lookup-dedupe m k

  -- What every key finds is what the list holds.
  AllPairs-Unique :
      (P : Key → V → Type 0) (m : List (Key × V))
      → Unique m
      → ((k : Key) (v : V) → lookup k m ≡ some v → P k v)
      → AllPairs P m
  unfolding lookup
  AllPairs-Unique P [] u h = tt
  AllPairs-Unique P ((j, v) ∷ m) u h =
      let self : key_eq j j ≡ true = (key_eq_iff j j).1 refl in
      (
        h j v (rw self),
        AllPairs-Unique P m u.1 (λ k w e. h k w (elim (Bool-cases (key_eq j k)) [
          | inl same ↦
              let equal : j ≡ k = (key_eq_iff j k).0 same in
              let hidden : lookup k m ≡ none = ap (λ i. lookup i m) (sym equal) ∙ u.0 in
              absurd (none-ne (sym hidden ∙ e))
          | inr other ↦ rw other e
        ])),
      )

  AllPairs-place :
      (P : Key → V → Type 0) (k : Key) (v : V) (m : List (Key × V))
      → P k v
      → AllPairs P m
      → AllPairs P (place k v m)
  unfolding place
  AllPairs-place P k v [] p h = (p, tt)
  AllPairs-place P k v ((j, w) ∷ m) p h = elim (Bool-cases (le v w)) [
    | inl first ↦ rw first (p, h)
    | inr later ↦ rw later (h.0, AllPairs-place P k v m p h.1)
  ]

  AllPairs-place_all :
      (P : Key → V → Type 0) (m : List (Key × V)) → AllPairs P m → AllPairs P (place_all m)
  unfolding place_all
  AllPairs-place_all P [] h = tt
  AllPairs-place_all P ((k, v) ∷ m) h =
      AllPairs-place P k v (place_all m) h.0 (AllPairs-place_all P m h.1)

  -- What the sorted list holds is what every key finds.
  pub items-sort_lem : (m : List (Key × V)) → AllPairs (λ k v. lookup k m ≡ some v) (sort m)
  unfolding sort
  items-sort_lem m =
      AllPairs-place_all (λ k v. lookup k m ≡ some v) (dedupe m)
        (AllPairs-Unique (λ k v. lookup k m ≡ some v) (dedupe m) (Unique-dedupe m)
          (λ k v e. sym (lookup-dedupe m k) ∙ e))

  AllFrom-place :
      (k : Key) (u v : V) (m : List (Key × V))
      → le u v ≡ true
      → AllFrom le u m
      → AllFrom le u (place k v m)
  unfolding place
  AllFrom-place k u v [] e h = (e, tt)
  AllFrom-place k u v ((j, w) ∷ m) e h = elim (Bool-cases (le v w)) [
    | inl first ↦ rw first (e, h)
    | inr later ↦ rw later (h.0, AllFrom-place k u v m e h.1)
  ]

  module _ (P : V → Type 0) (o : IsOrder le P) where
    AllFrom-trans :
        (u v : V) (m : List (Key × V))
        → P u
        → P v
        → AllPairs (λ k v. P v) m
        → le u v ≡ true
        → AllFrom le v m
        → AllFrom le u m
    AllFrom-trans u v [] pu pv ps e h = tt
    AllFrom-trans u v ((k, w) ∷ m) pu pv ps e h =
        (o.trans u v w pu pv ps.0 e h.0, AllFrom-trans u v m pu pv ps.1 e h.1)

    IsSorted-place :
        (k : Key) (v : V) (m : List (Key × V))
        → P v
        → AllPairs (λ k v. P v) m
        → IsSorted le m
        → IsSorted le (place k v m)
    unfolding place
    IsSorted-place k v [] p ps h = (tt, tt)
    IsSorted-place k v ((j, w) ∷ m) p ps h = elim (Bool-cases (le v w)) [
      | inl first ↦ rw first ((first, AllFrom-trans v w m p ps.0 ps.1 first h.0), h)
      | inr later ↦
          rw later
            (AllFrom-place k w v m (o.total v w p ps.0 later) h.0, IsSorted-place k v m p ps.1 h.1)
    ]

    place_all-IsSorted : (m : List (Key × V)) → AllPairs (λ k v. P v) m → IsSorted le (place_all m)
    unfolding place_all
    place_all-IsSorted [] ps = tt
    place_all-IsSorted ((k, v) ∷ m) ps =
        IsSorted-place k v (place_all m) ps.0 (AllPairs-place_all (λ k v. P v) m ps.1)
          (place_all-IsSorted m ps.1)

    pub sort-IsSorted :
        (m : List (Key × V))
        → ((k : Key) (v : V) → lookup k m ≡ some v → P v)
        → IsSorted le (sort m)
    unfolding sort
    sort-IsSorted m ps = place_all-IsSorted (dedupe m) (
        AllPairs-Unique (λ k v. P v) (dedupe m) (Unique-dedupe m)
          (λ k v e. ps k v (sym (lookup-dedupe m k) ∙ e)))
