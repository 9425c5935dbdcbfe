-- ===== src/Log/Collapsed/Counts.antt =====
-- Counting in a table: the sum of the values, and the keys.
use mediawiki_php_excimer.Prelude.{
  ℕ, ◌+◌, ◌%◌, ◌^◌, ◌≡◌, refl, sym, ap, ◌∙◌, Bool, true, inl, inr, none, some, List, [], ◌∷◌, ◌++◌,
  arith, Option-cases, Bool-cases, if◌then◌else◌,
}
use mediawiki_php_excimer.Zend.{HashApi, Key, num, key_eq, key_eq_iff, lookup, replace, find-add}
use mediawiki_php_excimer.Log.{Entry}
use mediawiki_php_excimer.Log.Valid.{All, All-snoc, total}
use mediawiki_php_excimer.Log.Collapsed.{add_count, collate_counts}

-- The sum of the values whose keys pass a test.
unfoldable pub weight_of : (Key → Bool) → List (Key × ℕ) → ℕ
weight_of P [] = 0
weight_of P ((k, n) ∷ m) = (if P k then n else 0) + weight_of P m

abbrev pub any_key : Key → Bool
any_key k = true

-- The sum of the values.
abbrev pub weight : List (Key × ℕ) → ℕ
weight m = weight_of any_key m

-- The events of the entries whose frame index passes a test.
unfoldable pub events_of : (Key → Bool) → List Entry → ℕ
events_of P [] = 0
events_of P (e ∷ entries) =
    (if P (num e.frame_index) then e.event_count else 0) + events_of P entries

pub events_of-any : (entries : List Entry) → events_of any_key entries ≡ total entries
unfolding events_of total
events_of-any [] = refl
events_of-any (e ∷ entries) = omega (arith, events_of-any entries)

module _ (P : Key → Bool) where
  weight_of-append :
      (m : List (Key × ℕ)) (k : Key) (n : ℕ)
      → weight_of P (m ++ (k, n) ∷ []) ≡ weight_of P m + (if P k then n else 0)
  unfolding weight_of
  weight_of-append [] k n = omega arith
  weight_of-append ((j, w) ∷ m) k n = omega (arith, weight_of-append m k n)

  weight_of-replace :
      (m : List (Key × ℕ)) (k : Key) (old new : ℕ)
      → lookup k m ≡ some old
      → weight_of P (replace k new m) + (if P k then old else 0)
        ≡ weight_of P m + (if P k then new else 0)
  unfolding weight_of lookup replace
  weight_of-replace [] k old new h = cc
  weight_of-replace ((j, w) ∷ m) k old new h = elim (Bool-cases (key_eq j k)) [
    | inl same ↦
        let here : j ≡ k = (key_eq_iff j k).0 same in
        let passes : P j ≡ P k = ap P here in
        let value : some w ≡ some old = rw same at h in
        rw (same, passes) (let eq : w ≡ old = cc in rw eq (omega arith))
    | inr differs ↦ rw differs (omega (arith, weight_of-replace m k old new (rw differs at h)))
  ]

-- The keys satisfy `P`.
abbrev pub Keys : (Key → Type 0) → List (Key × ℕ) → Type 0
Keys P = All (λ (b : Key × ℕ). P b.0)

Keys-replace :
    (P : Key → Type 0) (m : List (Key × ℕ)) (k : Key) (v : ℕ) → Keys P m → Keys P (replace k v m)
unfolding replace
Keys-replace P [] k v h = tt
Keys-replace P ((j, w) ∷ m) k v h = elim (Bool-cases (key_eq j k)) [
  | inl same ↦ rw same h
  | inr differs ↦ rw differs (h.0, Keys-replace P m k v h.1)
]

module _ ⦃Z : HashApi⦄ where
  -- The pairs of the table after a count of an absent key, and after a count of a present one.
  items-add_count-none :
      (t : Z.Table ℕ) (k : Key) (term : ℕ)
      → Z.find t k ≡ none
      → Z.items (add_count t k term) ≡ replace k ((0 + term) % 2 ^ 64) (Z.items t ++ (k, 0) ∷ [])
  unfolding add_count
  items-add_count-none t k term e =
      rw (e, add_count, Z.items-assign (Z.add t k 0) k ((0 + term) % 2 ^ 64), Z.items-add t k 0 e)

  items-add_count-some :
      (t : Z.Table ℕ) (k : Key) (term old : ℕ)
      → Z.find t k ≡ some old
      → Z.items (add_count t k term) ≡ replace k ((old + term) % 2 ^ 64) (Z.items t)
  unfolding add_count
  items-add_count-some t k term old e =
      rw (e, add_count, Z.items-assign t k ((old + term) % 2 ^ 64))

  lookup-add_zero :
      (t : Z.Table ℕ) (k : Key) → Z.find t k ≡ none → lookup k (Z.items t ++ (k, 0) ∷ []) ≡ some 0
  lookup-add_zero t k e =
      let found : Z.find (Z.add t k 0) k ≡ some 0 =
        rw (find-add t k k 0 e) (rw ((key_eq_iff k k).1 refl)) in
      rw (← Z.items-add t k 0 e) (sym (Z.find-items (Z.add t k 0) k) ∙ found)

  -- A count adds the term to the sum of the values under its key, as `zend_long` addition does.
  pub weight_of-add_count :
      (P : Key → Bool) (t : Z.Table ℕ) (k : Key) (term : ℕ)
      → weight_of P (Z.items (add_count t k term)) % 2 ^ 64
        ≡ (weight_of P (Z.items t) + (if P k then term else 0)) % 2 ^ 64
  weight_of-add_count P t k term = elim (Option-cases (Z.find t k)) [
    | inl e ↦
        let m = Z.items t ++ (k, 0) ∷ [] in
        let step = weight_of-replace P m k 0 ((0 + term) % 2 ^ 64) (lookup-add_zero t k e) in
        let longer = weight_of-append P (Z.items t) k 0 in
        rw (items-add_count-none t k term e) (ground arith)
    | inr (old, e) ↦
        let step =
          weight_of-replace P (Z.items t) k old ((old + term) % 2 ^ 64)
            (sym (Z.find-items t k) ∙ e) in
        rw (items-add_count-some t k term old e) (ground arith)
  ]

  pub Keys-add_count :
      (P : Key → Type 0) (t : Z.Table ℕ) (k : Key) (term : ℕ)
      → Keys P (Z.items t)
      → P k
      → Keys P (Z.items (add_count t k term))
  Keys-add_count P t k term h p = elim (Option-cases (Z.find t k)) [
    | inl e ↦ rw (items-add_count-none t k term e) (
        Keys-replace P (Z.items t ++ (k, 0) ∷ []) k _
          (All-snoc (λ (b : Key × ℕ). P b.0) (Z.items t) (k, 0) h p))
    | inr (old, e) ↦ rw (items-add_count-some t k term old e) (Keys-replace P (Z.items t) k _ h)
  ]

  -- Collating adds the events of the entries.
  pub weight_of-collate_counts :
      (P : Key → Bool) (t : Z.Table ℕ) (entries : List Entry)
      → weight_of P (Z.items (collate_counts t entries)) % 2 ^ 64
        ≡ (weight_of P (Z.items t) + events_of P entries) % 2 ^ 64
  unfolding collate_counts events_of
  weight_of-collate_counts P t [] = omega arith
  weight_of-collate_counts P t (e ∷ entries) = omega (
    arith,
    weight_of-collate_counts P (add_count t (num e.frame_index) e.event_count) entries,
    weight_of-add_count P t (num e.frame_index) e.event_count,
  )

  pub Keys-collate_counts :
      (P : Key → Type 0) (t : Z.Table ℕ) (entries : List Entry)
      → Keys P (Z.items t)
      → All (λ (e : Entry). P (num e.frame_index)) entries
      → Keys P (Z.items (collate_counts t entries))
  unfolding collate_counts
  Keys-collate_counts P t [] h all = h
  Keys-collate_counts P t (e ∷ entries) h all =
      Keys-collate_counts P (add_count t (num e.frame_index) e.event_count) entries
        (Keys-add_count P t (num e.frame_index) e.event_count h all.0) all.1
