-- ===== src/Bytes/Decimal.antt =====
-- Printed numbers: they can be read back, and hold no NUL byte.
use mediawiki_php_excimer.Prelude.{
  ℕ, zero, suc, ◌+◌, ◌-◌, ◌*◌, ◌/◌, ◌^◌, ◌<◌, ◌≡◌, ◌≢◌, refl, ◌∙◌, sym, ap, inl, inr, [], ◌∷◌, ◌++◌,
  arith, ltb, Bool-cases,
}
use mediawiki_php_excimer.Bytes.{Bytes, decimal_digits, decimal, format_int}
use native.Mathlib.Nat.{pow-suc}
use mediawiki_php_excimer.Bytes.Separator.{Lacks, Lacks-append}

-- The number that a row of digits stands for.
value : ℕ → Bytes → ℕ
value acc [] = acc
value acc (d ∷ ds) = value (acc * 10 + (d - b'0')) ds

value-append :
    (acc : ℕ) (ds : Bytes) (d : ℕ) → value acc (ds ++ d ∷ []) ≡ value acc ds * 10 + (d - b'0')
unfolding value
value-append acc [] d = refl
value-append acc (x ∷ ds) d = value-append (acc * 10 + (x - b'0')) ds d

value-decimal_digits : (k n : ℕ) → n < 10 ^ suc k → value 0 (decimal_digits k n) ≡ n
unfolding value decimal_digits
value-decimal_digits zero n h = omega arith
value-decimal_digits (suc k) n h = elim (Bool-cases (ltb n 10)) [
  | inl small ↦ rw small (omega arith)
  | inr big ↦
      rw
        (
          big,
          value-append 0 (decimal_digits k (n / 10)),
          value-decimal_digits k (n / 10) (omega (arith, pow-suc 10 (suc k))),
        )
        (omega arith)
]

-- No digit is a byte below '0', such as NUL or '-'.
Lacks-decimal_digits : (s k n : ℕ) → s < b'0' → Lacks s (decimal_digits k n)
unfolding decimal_digits
Lacks-decimal_digits s zero n h = omega arith
Lacks-decimal_digits s (suc k) n h = elim (Bool-cases (ltb n 10)) [
  | inl small ↦ rw small (omega arith)
  | inr big ↦ rw big (
      Lacks-append s (decimal_digits k (n / 10)) _ (Lacks-decimal_digits s k (n / 10) h)
        (omega arith))
]

decimal_injective : (n m : ℕ) → n < 2 ^ 64 → m < 2 ^ 64 → decimal n ≡ decimal m → n ≡ m
unfolding decimal
decimal_injective n m hn hm e =
    sym (value-decimal_digits 20 n (omega arith))
    ∙ (ap (value 0) e ∙ value-decimal_digits 20 m (omega arith))

decimal-ne-minus : (n : ℕ) (t : Bytes) → decimal n ≢ b'-' ∷ t
unfolding decimal
decimal-ne-minus n t e =
    let front : Lacks b'-' (b'-' ∷ t) = rw e at (Lacks-decimal_digits b'-' 20 n (omega arith)) in
    front.0 refl

-- The `%d` of two different 32-bit values differs.
pub format_int_injective : (n m : ℕ) → n < 2 ^ 32 → m < 2 ^ 32 → format_int n ≡ format_int m → n ≡ m
unfolding format_int
format_int_injective n m hn hm e = ground (
  arith,
  decimal_injective n m,
  decimal_injective (2 ^ 32 - n) (2 ^ 32 - m),
  decimal-ne-minus n (decimal (2 ^ 32 - m)),
  decimal-ne-minus m (decimal (2 ^ 32 - n)),
)

Lacks-decimal : (s n : ℕ) → s < b'0' → Lacks s (decimal n)
unfolding decimal
Lacks-decimal s n h = Lacks-decimal_digits s 20 n h

-- A printed number holds no byte below the minus sign.
pub Lacks-format_int : (s n : ℕ) → s < b'-' → Lacks s (format_int n)
unfolding format_int
Lacks-format_int s n h = elim (Bool-cases (ltb n (2 ^ 31))) [
  | inl small ↦ rw small (Lacks-decimal s n (omega arith))
  | inr big ↦ rw big (omega arith, Lacks-decimal s (2 ^ 32 - n) (omega arith))
]
