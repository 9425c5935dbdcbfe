-- ===== src/Timer/Ring.antt =====
-- Circular lists of pointers: what the links say, and how writes to them change the list.
use mediawiki_php_excimer.Prelude.{
  ◌≡◌, ◌≢◌, ap, ◌∙◌, Bool, true, false, ◌||◌, List, [], ◌∷◌, ◌++◌, arith, ◌==◌,
}
use mediawiki_php_excimer.Timer.{Ptr, null}

unfoldable pub mem : Ptr → List Ptr → Bool
mem a [] = false
mem a (x ∷ xs) = (a == x) || mem a xs

abbrev pub Distinct : List Ptr → Type 0
Distinct [] = Unit
Distinct (x ∷ xs) = (mem x xs ≡ false) × Distinct xs

unfoldable pub last : Ptr → List Ptr → Ptr
last p [] = p
last p (x ∷ xs) = last x xs

-- From `p` the links lead forth and back through `xs` to `q`.
abbrev pub Segment : (next prev : Ptr → Ptr) → Ptr → List Ptr → Ptr → Type 0
Segment next prev p [] q = (next p ≡ q) × (prev q ≡ p)
Segment next prev p (x ∷ xs) q = (next p ≡ x) × (prev x ≡ p) × Segment next prev x xs q

pub mem_head : (p : Ptr) (xs : List Ptr) → mem p (p ∷ xs) ≡ true
unfolding mem
mem_head p xs = ground arith

pub mem_tail : (a p : Ptr) (xs : List Ptr) → mem a xs ≡ true → mem a (p ∷ xs) ≡ true
unfolding mem
mem_tail a p xs h = ground arith

pub mem-last : (p : Ptr) (xs : List Ptr) → mem (last p xs) (p ∷ xs) ≡ true
unfolding mem last
mem-last p [] = ground arith
mem-last p (x ∷ xs) = ground (arith, mem-last x xs)

ne_last : (p x : Ptr) (xs : List Ptr) → mem p (x ∷ xs) ≡ false → p ≢ last x xs
ne_last p x xs h e = cc (mem-last x xs, ap (λ (a : Ptr). mem a (x ∷ xs)) e)

-- The end of a segment knows the last pointer.
pub prev-last :
    (next prev : Ptr → Ptr) (p : Ptr) (xs : List Ptr) (q : Ptr)
    → Segment next prev p xs q
    → prev q ≡ last p xs
unfolding last
prev-last next prev p [] q s = s.1
prev-last next prev p (x ∷ xs) q s = prev-last next prev x xs q s.2

pub Segment-append :
    (next prev : Ptr → Ptr) (p : Ptr) (xs : List Ptr) (t : Ptr) (ys : List Ptr) (q : Ptr)
    → Segment next prev p xs t
    → Segment next prev t ys q
    → Segment next prev p (xs ++ t ∷ ys) q
Segment-append next prev p [] t ys q s u = (s.0, s.1, u)
Segment-append next prev p (x ∷ xs) t ys q s u =
    (s.0, s.1, Segment-append next prev x xs t ys q s.2 u)

pub next-last :
    (next prev : Ptr → Ptr) (p : Ptr) (xs : List Ptr) (q : Ptr)
    → Segment next prev p xs q
    → next (last p xs) ≡ q
unfolding last
next-last next prev p [] q s = s.0
next-last next prev p (x ∷ xs) q s = next-last next prev x xs q s.2

-- A segment is two segments at each of its pointers.
pub Segment-cut :
    (next prev : Ptr → Ptr) (p : Ptr) (xs : List Ptr) (t : Ptr) (ys : List Ptr) (q : Ptr)
    → Segment next prev p (xs ++ t ∷ ys) q
    → Segment next prev p xs t × Segment next prev t ys q
Segment-cut next prev p [] t ys q s = ((s.0, s.1), s.2)
Segment-cut next prev p (x ∷ xs) t ys q s =
    let (front, back) = Segment-cut next prev x xs t ys q s.2 in ((s.0, s.1, front), back)

-- The pointers of a segment lead to pointers of it, or to its end.
pub next-ne_null :
    (next prev : Ptr → Ptr) (p : Ptr) (xs : List Ptr) (q a : Ptr)
    → Segment next prev p xs q
    → mem null xs ≡ false
    → q ≢ null
    → mem a (p ∷ xs) ≡ true
    → next a ≢ null
unfolding mem
next-ne_null next prev p [] q a s out end i e = ground arith
next-ne_null next prev p (x ∷ xs) q a s out end i e =
    ground (arith, next-ne_null next prev x xs q a)

module _ (next prev next' prev' : Ptr → Ptr) where
  -- The segment is led to another end by a write to the last pointer and to the new end.
  pub Segment-retarget :
      (p : Ptr) (xs : List Ptr) (q q' : Ptr)
      → Segment next prev p xs q
      → Distinct (p ∷ xs)
      → ((a : Ptr) → mem a (p ∷ xs) ≡ true → a ≢ last p xs → next' a ≡ next a)
      → ((a : Ptr) → mem a xs ≡ true → prev' a ≡ prev a)
      → next' (last p xs) ≡ q'
      → prev' q' ≡ last p xs
      → Segment next' prev' p xs q'
  unfolding last
  Segment-retarget p [] q q' s d fn fp e f = (e, f)
  Segment-retarget p (x ∷ xs) q q' s d fn fp e f = (
    fn p (mem_head p (x ∷ xs)) (ne_last p x xs d.0) ∙ s.0,
    fp x (mem_head x xs) ∙ s.1,
    Segment-retarget x xs q q' s.2 d.1 (λ a i n. fn a (mem_tail a p (x ∷ xs) i) n)
        (λ a i. fp a (mem_tail a x xs i)) e f,
  )

  -- A pointer `t` is linked in behind the last one.
  pub Segment-snoc :
      (p : Ptr) (xs : List Ptr) (q t : Ptr)
      → Segment next prev p xs q
      → Distinct (p ∷ xs)
      → ((a : Ptr) → mem a (p ∷ xs) ≡ true → a ≢ last p xs → next' a ≡ next a)
      → ((a : Ptr) → mem a xs ≡ true → prev' a ≡ prev a)
      → next' (last p xs) ≡ t
      → prev' t ≡ last p xs
      → next' t ≡ q
      → prev' q ≡ t
      → Segment next' prev' p (xs ++ t ∷ []) q
  Segment-snoc p xs q t s d fn fp e f g h =
      Segment-append next' prev' p xs t [] q (Segment-retarget p xs q t s d fn fp e f) (g, h)
