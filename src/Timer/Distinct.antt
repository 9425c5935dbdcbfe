-- ===== src/Timer/Distinct.antt =====
-- Lists of distinct pointers, and the removal of one of them.
use mediawiki_php_excimer.Prelude.{
  ◌≡◌, refl, ap, inl, inr, true, false, ◌||◌, List, [], ◌∷◌, ◌++◌, arith, ◌==◌, Bool-cases,
  if◌then◌else◌,
}
use mediawiki_php_excimer.Timer.{Ptr}
use mediawiki_php_excimer.Timer.Ring.{mem, Distinct}

pub mem-append_list : (a : Ptr) (xs ys : List Ptr) → mem a (xs ++ ys) ≡ (mem a xs || mem a ys)
unfolding mem
mem-append_list a [] ys = refl
mem-append_list a (x ∷ xs) ys = ground (arith, mem-append_list a xs ys)

-- The two parts of a list of distinct pointers.
pub record Apart (xs ys : List Ptr) : Type 0 where
  pub front : Distinct xs
  pub back : Distinct ys
  pub apart : (a : Ptr) → mem a xs ≡ true → mem a ys ≡ false

pub Distinct-Apart : (xs ys : List Ptr) → Distinct (xs ++ ys) → Apart xs ys
unfolding mem
Distinct-Apart [] ys d = record { front = tt; back = d; apart = λ a i. cc }
Distinct-Apart (x ∷ xs) ys d =
    let r = Distinct-Apart xs ys d.1 in
    let out = d.0 in
    record {
      front = (ground (arith, mem-append_list x xs ys), r.front);
      back = r.back;
      apart = λ a i. ground (arith, mem-append_list x xs ys, r.apart a);
    }

pub Apart-Distinct : (xs ys : List Ptr) → Apart xs ys → Distinct (xs ++ ys)
unfolding mem
Apart-Distinct [] ys r = r.back
Apart-Distinct (x ∷ xs) ys r = (
  ground (arith, mem-append_list x xs ys, r.apart x, r.front.0),
  Apart-Distinct xs ys
      (record { front = r.front.1; back = r.back; apart = λ a i. r.apart a (ground arith) }),
)

-- The list without a pointer.
unfoldable pub erase : Ptr → List Ptr → List Ptr
erase t [] = []
erase t (x ∷ xs) = if x == t then xs else x ∷ erase t xs

-- The place where a pointer stands.
pub record Found (t : Ptr) (qs : List Ptr) : Type 0 where
  pub before : List Ptr
  pub after : List Ptr
  pub split : qs ≡ before ++ t ∷ after
  pub rest : erase t qs ≡ before ++ after

pub mem-Found : (t : Ptr) (qs : List Ptr) → mem t qs ≡ true → Found t qs
unfolding mem erase
mem-Found t [] h = absurd (cc)
mem-Found t (x ∷ xs) h = elim (Bool-cases (x == t)) [
  | inl here ↦
      let same : x ≡ t = ground arith in
      record { before = []; after = xs; split = rw same; rest = rw here }
  | inr further ↦
      let f = mem-Found t xs (ground arith) in
      record {
        before = x ∷ f.before;
        after = f.after;
        split = ap (λ l. x ∷ l) f.split;
        rest = rw further (ap (λ l. x ∷ l) f.rest);
      }
]

pub erase-absent : (t : Ptr) (qs : List Ptr) → mem t qs ≡ false → erase t qs ≡ qs
unfolding mem erase
erase-absent t [] h = refl
erase-absent t (x ∷ xs) h = ground (arith, erase-absent t xs)
