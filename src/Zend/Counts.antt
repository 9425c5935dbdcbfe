-- ===== src/Zend/Counts.antt =====
-- A concrete heap of strings, a count for each content, at which the theorems can be run.
use mediawiki_php_excimer.Prelude.{ℕ, ◌+◌, ◌-◌, ◌<◌, ◌≡◌, refl, arith, ◌==◌, if◌then◌else◌}
use mediawiki_php_excimer.Bytes.{Bytes, bytes_eq_iff}
use mediawiki_php_excimer.Run.{Run, ok, fault}
use mediawiki_php_excimer.Zend.Strings.{StringApi, one}

abbrev pub drop : (Bytes → ℕ) → Bytes → Run (Bytes → ℕ)
drop h s = if h s == 0 then fault else ok (λ t. h t - one s t)

pub drop-ok :
    (h : Bytes → ℕ) (s : Bytes)
    → 0 < h s
    → (h' : Bytes → ℕ) × (drop h s ≡ ok h') × ((t : Bytes) → h' t + one s t ≡ h t)
unfolding one
drop-ok h s p = (λ t. h t - one s t, ground arith, λ t. ground (arith, bytes_eq_iff s t))

instance abbrev pub counts : StringApi
counts = record {
  Heap = Bytes → ℕ;
  refcount = λ h t. h t;
  addref = λ h s t. h t + one s t;
  create = λ h s t. h t + one s t;
  delref = drop;
  free = drop;
  refcount-addref = λ h s t. refl;
  refcount-create = λ h s t. refl;
  delref-ok = drop-ok;
  free-ok = drop-ok;
}
