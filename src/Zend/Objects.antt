-- ===== src/Zend/Objects.antt =====
-- The reference counts of the objects of the Zend Engine, as an interface. An object is a handle.
use mediawiki_php_excimer.Prelude.{ℕ, ◌+◌, ◌-◌, ◌<◌, ◌≡◌, Bool, ◌==◌, if◌then◌else◌}
use mediawiki_php_excimer.Run.{Run, ok}

-- What the source uses. A reference that nobody holds cannot be released, so `zval_ptr_dtor` may fault.
pub record ObjectApi : Type 1 where
  pub Heap : Type 0
  pub refs : Heap → ℕ → ℕ
  -- `object_init_ex`: a new object with one reference
  pub create : Heap → ℕ × Heap
  -- `ZVAL_COPY`
  pub copy : Heap → ℕ → Heap
  -- `true` says that the reference was the last one, after which the engine calls
  -- the function `free_obj` of the class
  pub zval_ptr_dtor : Heap → ℕ → Run (Bool × Heap)
  pub refs-unused : (h : Heap) → refs h (create h).0 ≡ 0
  pub refs-create :
      (h : Heap) (k : ℕ) → refs (create h).1 k ≡ (if k == (create h).0 then 1 else refs h k)
  pub refs-copy :
      (h : Heap) (o k : ℕ) → refs (copy h o) k ≡ (if k == o then refs h k + 1 else refs h k)
  pub zval_ptr_dtor-ok :
      (h : Heap) (o : ℕ)
      → 0 < refs h o
      → (h' : Heap) × (zval_ptr_dtor h o ≡ ok (refs h o == 1, h'))
        × ((k : ℕ) → refs h' k ≡ (if k == o then refs h k - 1 else refs h k))
