-- ===== src/Bytes.antt =====
-- The texts of a `zend_string`, as lists of bytes, and how `printf` writes a number into one.
pub mod Decimal
pub mod Separator
use mediawiki_php_excimer.Prelude.{
  ℕ, zero, suc, ◌+◌, ◌-◌, ◌/◌, ◌%◌, ◌^◌, ◌≡◌, refl, ap, ◌↔◌, ◌⊎◌, inl, inr, Bool, true, false, ◌&&◌,
  List, [], ◌∷◌, ◌++◌, arith, ◌==◌, ==_iff, ltb, if◌then◌else◌,
}

abbrev pub Bytes : Type 0
Bytes = List ℕ

unfoldable pub bytes_eq : Bytes → Bytes → Bool
bytes_eq [] [] = true
bytes_eq [] (y ∷ ys) = false
bytes_eq (x ∷ xs) [] = false
bytes_eq (x ∷ xs) (y ∷ ys) = (x == y) && bytes_eq xs ys

bytes_eq_sound : (a b : Bytes) → bytes_eq a b ≡ true → a ≡ b
unfolding bytes_eq
bytes_eq_sound [] [] h = refl
bytes_eq_sound [] (y ∷ ys) h = cc
bytes_eq_sound (x ∷ xs) [] h = cc
bytes_eq_sound (x ∷ xs) (y ∷ ys) h = ground (arith, bytes_eq_sound xs ys)

pub bytes_eq_refl : (a : Bytes) → bytes_eq a a ≡ true
unfolding bytes_eq
bytes_eq_refl [] = refl
bytes_eq_refl (x ∷ xs) = ground (arith, bytes_eq_refl xs)

pub bytes_eq_iff : (a b : Bytes) → (bytes_eq a b ≡ true) ↔ (a ≡ b)
bytes_eq_iff a b = (bytes_eq_sound a b, λ e. rw e (bytes_eq_refl b))

-- `%u`: the decimal digits, the first argument bounding their number.
decimal_digits : ℕ → ℕ → Bytes
decimal_digits zero n = (b'0' + n % 10) ∷ []
decimal_digits (suc k) n =
    let front = decimal_digits k (n / 10) in
    if ltb n 10 then (b'0' + n) ∷ [] else front ++ (b'0' + n % 10) ∷ []

-- A number below 2^64 has at most 20 digits.
unfoldable pub decimal : ℕ → Bytes
unfolding decimal_digits
decimal n = decimal_digits 20 n

-- `%d` of a word of `w` bits, read as a signed number.
signed_decimal : ℕ → ℕ → Bytes
signed_decimal w n = if ltb n (2 ^ (w - 1)) then decimal n else b'-' ∷ decimal (2 ^ w - n)

-- `%d` of a 32-bit value, and `ZEND_LONG_FMT` of a 64-bit one.
unfoldable pub format_int : ℕ → Bytes
unfolding signed_decimal
format_int = signed_decimal 32

unfoldable pub format_long : ℕ → Bytes
unfolding signed_decimal
format_long = signed_decimal 64
