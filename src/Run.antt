-- ===== src/Run.antt =====
-- The outcome of a C function that may end the request. `fatal` is `zend_error_noreturn(E_ERROR)`,
-- `fault` a read through NULL, outside an array or of freed memory, `out_of_fuel` a loop of the model that was
-- cut short, and `blocked` a wait that never ends.
use mediawiki_php_excimer.Prelude.{◌≡◌, refl}

pub data Run {ℓ} (R : Type ℓ) : Type ℓ where
  fatal fault out_of_fuel blocked : Run R
  ok : (returned : R) → Run R

module _ {ℓ κ} {A : Type ℓ} {B : Type κ} where
  infixl 5 ◌>>=◌
  abbrev pub ◌>>=◌ : (call : Run A) (next : A → Run B) → Run B
  fatal >>= next = fatal
  fault >>= next = fault
  out_of_fuel >>= next = out_of_fuel
  blocked >>= next = blocked
  ok returned >>= next = next returned

  -- Inversion of a bind that succeeds.
  pub >>=-eq-ok :
      (call : Run A) (next : A → Run B) {b : B}
      → (call >>= next) ≡ ok b
      → (a : A) × (call ≡ ok a) × (next a ≡ ok b)
  >>=-eq-ok fatal next h = cc
  >>=-eq-ok fault next h = cc
  >>=-eq-ok out_of_fuel next h = cc
  >>=-eq-ok blocked next h = cc
  >>=-eq-ok (ok returned) next h = (returned, refl, h)
