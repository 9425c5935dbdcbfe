-- ===== src/Bytes/Separator.antt =====
-- A byte that does not occur in a text marks where the text begins.
use mediawiki_php_excimer.Prelude.{ℕ, ◌≡◌, ◌≢◌, refl, [], ◌∷◌, ◌++◌}
use mediawiki_php_excimer.Bytes.{Bytes}

abbrev pub Lacks : ℕ → Bytes → Type 0
Lacks s [] = Unit
Lacks s (x ∷ xs) = (x ≢ s) × Lacks s xs

pub Lacks-append : (s : ℕ) (a b : Bytes) → Lacks s a → Lacks s b → Lacks s (a ++ b)
Lacks-append s [] b ha hb = hb
Lacks-append s (x ∷ a) b ha hb = (ha.0, Lacks-append s a b ha.1 hb)

pub Lacks-middle : (s : ℕ) (a b : Bytes) → ¬ Lacks s (a ++ (s ∷ b))
Lacks-middle s [] b h = h.0 refl
Lacks-middle s (x ∷ a) b h = Lacks-middle s a b h.1

-- A text is cut at the last separator in one way only.
pub cut_unique :
    (s : ℕ) (f g a b : Bytes)
    → Lacks s a
    → Lacks s b
    → f ++ (s ∷ a) ≡ g ++ (s ∷ b)
    → (f ≡ g) × (a ≡ b)
cut_unique s [] [] a b ha hb e = (refl, cc)
cut_unique s [] (y ∷ g) a b ha hb e =
    let tail : a ≡ g ++ (s ∷ b) = cc in absurd (Lacks-middle s g b (rw tail at ha))
cut_unique s (x ∷ f) [] a b ha hb e =
    let tail : b ≡ f ++ (s ∷ a) = cc in absurd (Lacks-middle s f a (rw tail at hb))
cut_unique s (x ∷ f) (y ∷ g) a b ha hb e =
    let rest = cut_unique s f g a b ha hb (cc) in (cc (rest.0), rest.1)

-- And at the first one.
pub cut_first_unique :
    (s : ℕ) (a b f g : Bytes)
    → Lacks s a
    → Lacks s b
    → a ++ (s ∷ f) ≡ b ++ (s ∷ g)
    → (a ≡ b) × (f ≡ g)
cut_first_unique s [] [] f g ha hb e = (refl, cc)
cut_first_unique s [] (y ∷ b) f g ha hb e = let same : y ≡ s = cc in absurd (hb.0 same)
cut_first_unique s (x ∷ a) [] f g ha hb e = let same : x ≡ s = cc in absurd (ha.0 same)
cut_first_unique s (x ∷ a) (y ∷ b) f g ha hb e =
    let rest = cut_first_unique s a b f g ha.1 hb.1 (cc) in (cc (rest.0), rest.1)
