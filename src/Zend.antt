-- ===== src/Zend.antt =====
-- The parts of the Zend Engine that the extension calls, as an interface. Nothing here is code of
-- the repository: the hash table is a parameter of the model, with the documented behaviour of a
-- PHP array, an ordered map from integer and string keys.
pub mod Sort
pub mod Assoc
pub mod Strings
pub mod Counts
pub mod Objects
pub mod Handles
use mediawiki_php_excimer.Prelude.{
  ℕ, ◌≡◌, sym, ◌∙◌, ◌↔◌, Bool, true, false, Option, none, some, List, [], ◌∷◌, ◌++◌, arith, ◌==◌,
  if◌then◌else◌,
}
use mediawiki_php_excimer.Bytes.{Bytes, bytes_eq, bytes_eq_iff}

-- The key of a bucket: an integer (`zend_hash_index_find`) or a string (`zend_hash_find`).
pub data Key : Type 0 where
  num : ℕ → Key
  str : Bytes → Key

unfoldable pub key_eq : Key → Key → Bool
key_eq (num a) (num b) = a == b
key_eq (num a) (str t) = false
key_eq (str s) (num b) = false
key_eq (str s) (str t) = bytes_eq s t

pub key_eq_iff : (a b : Key) → (key_eq a b ≡ true) ↔ (a ≡ b)
unfolding key_eq
key_eq_iff (num a) (num b) = ground arith
key_eq_iff (num a) (str t) = ground arith
key_eq_iff (str s) (num b) = ground arith
key_eq_iff (str s) (str t) = ground (arith, bytes_eq_iff s t)

module _ {V : Type 0} where
  -- The first value under a key in a list of pairs.
  unfoldable pub lookup : Key → List (Key × V) → Option V
  lookup k [] = none
  lookup k ((j, v) ∷ m) = if key_eq j k then some v else lookup k m

  -- The pairs with the value under a key replaced where it stands.
  unfoldable pub replace : Key → V → List (Key × V) → List (Key × V)
  replace k v [] = []
  replace k v ((j, w) ∷ m) = if key_eq j k then (j, v) ∷ m else (j, w) ∷ replace k v m

-- The values stand in the order of a comparison: none may have to stand before an earlier one.
abbrev pub AllFrom : {V : Type 0} → (V → V → Bool) → V → List (Key × V) → Type 0
AllFrom le v [] = Unit
AllFrom le v ((k, w) ∷ m) = (le v w ≡ true) × AllFrom le v m

abbrev pub IsSorted : {V : Type 0} → (V → V → Bool) → List (Key × V) → Type 0
IsSorted le [] = Unit
IsSorted le ((k, v) ∷ m) = AllFrom le v m × IsSorted le m

-- The pairs satisfy `P`.
abbrev pub AllPairs : {V : Type 0} → (Key → V → Type 0) → List (Key × V) → Type 0
AllPairs P [] = Unit
AllPairs P ((k, v) ∷ m) = P k v × AllPairs P m

-- A comparison that is total and transitive on the values that satisfy `P`.
pub record IsOrder {V : Type 0} (le : V → V → Bool) (P : V → Type 0) : Type 0 where
  pub total : (a b : V) → P a → P b → le a b ≡ false → le b a ≡ true
  pub trans : (a b c : V) → P a → P b → P c → le a b ≡ true → le b c ≡ true → le a c ≡ true

-- What the source uses of a `HashTable`. `items` is the order in which `ZEND_HASH_FOREACH` visits.
pub record HashApi : Type 1 where
  -- a table with values of one type
  pub Table : Type 0 → Type 0
  -- `zend_new_array`, `zend_hash_init`
  pub new : (V : Type 0) → Table V
  -- `zend_hash_find`, `zend_hash_str_find`, `zend_hash_index_find`
  pub find : {V : Type 0} → Table V → Key → Option V
  -- `zend_hash_add`, `zend_hash_add_new`, `zend_hash_index_add` of a key that is absent
  pub add : {V : Type 0} → Table V → Key → V → Table V
  -- a write through the pointer that `find` returned
  pub assign : {V : Type 0} → Table V → Key → V → Table V
  pub items : {V : Type 0} → Table V → List (Key × V)
  -- `zend_hash_sort` that keeps the keys; `le v w` says that the comparison does not put w before v
  pub sort : {V : Type 0} → (V → V → Bool) → Table V → Table V
  pub items-new : (V : Type 0) → items (new V) ≡ []
  pub find-items : {V : Type 0} (t : Table V) (k : Key) → find t k ≡ lookup k (items t)
  pub items-add :
      {V : Type 0} (t : Table V) (k : Key) (v : V)
      → find t k ≡ none
      → items (add t k v) ≡ items t ++ (k, v) ∷ []
  pub items-assign :
      {V : Type 0} (t : Table V) (k : Key) (v : V) → items (assign t k v) ≡ replace k v (items t)
  pub find-sort :
      {V : Type 0} (le : V → V → Bool) (t : Table V) (k : Key) → find (sort le t) k ≡ find t k
  pub items-sort :
      {V : Type 0} (le : V → V → Bool) (t : Table V)
      → AllPairs (λ k v. find t k ≡ some v) (items (sort le t))
  pub sort-IsSorted :
      {V : Type 0} (le : V → V → Bool) (P : V → Type 0) (t : Table V)
      → IsOrder le P
      → ((k : Key) (v : V) → find t k ≡ some v → P v)
      → IsSorted le (items (sort le t))

module _ {V : Type 0} where
  -- An absent key goes to the end, and hides nothing.
  lookup-append :
      (k j : Key) (v : V) (m : List (Key × V))
      → lookup k m ≡ none
      → lookup j (m ++ (k, v) ∷ []) ≡ (if key_eq k j then some v else lookup j m)
  unfolding lookup
  lookup-append k j v [] h = ground arith
  lookup-append k j v ((i, w) ∷ m) h =
      ground (arith, lookup-append k j v m, key_eq_iff i k, key_eq_iff i j, key_eq_iff k j)

module _ {V : Type 0} where
  lookup-replace :
      (k j : Key) (v w : V) (m : List (Key × V))
      → lookup k m ≡ some w
      → lookup j (replace k v m) ≡ (if key_eq k j then some v else lookup j m)
  unfolding lookup replace
  lookup-replace k j v w [] h = absurd (cc)
  lookup-replace k j v w ((i, u) ∷ m) h =
      ground (arith, lookup-replace k j v w m, key_eq_iff i k, key_eq_iff i j, key_eq_iff k j)

module _ ⦃Z : HashApi⦄ {V : Type 0} where
  -- What `find` returns after `add` of an absent key.
  pub find-add :
      (t : Z.Table V) (k j : Key) (v : V)
      → Z.find t k ≡ none
      → Z.find (Z.add t k v) j ≡ (if key_eq k j then some v else Z.find t j)
  find-add t k j v h =
      rw (Z.find-items, Z.items-add t k v h, Z.find-items t j)
        (lookup-append k j v (Z.items t) (sym (Z.find-items t k) ∙ h))

  -- What `find` returns after a write to a present key.
  pub find-assign :
      (t : Z.Table V) (k j : Key) (v w : V)
      → Z.find t k ≡ some w
      → Z.find (Z.assign t k v) j ≡ (if key_eq k j then some v else Z.find t j)
  find-assign t k j v w h =
      rw (Z.find-items, Z.items-assign t k v, Z.find-items t j)
        (lookup-replace k j v w (Z.items t) (sym (Z.find-items t k) ∙ h))

  pub find-new : (k : Key) → Z.find (Z.new V) k ≡ none
  unfolding lookup
  find-new k = rw (Z.find-items, Z.items-new V)
