-- ===== src/Zend/Strings.antt =====
-- The reference counts of the strings of the Zend Engine, as an interface. Strings with the same
-- content are counted together: `refcount h s` is the sum of their counts.
use mediawiki_php_excimer.Prelude.{ℕ, ◌+◌, ◌<◌, ◌≡◌, if◌then◌else◌}
use mediawiki_php_excimer.Bytes.{Bytes, bytes_eq}
use mediawiki_php_excimer.Run.{Run, ok}

-- 1 if the strings are the same.
unfoldable pub one : Bytes → Bytes → ℕ
one s t = if bytes_eq s t then 1 else 0

-- What the source uses. A reference that nobody holds cannot be dropped, so the functions that drop
-- one may fault.
pub record StringApi : Type 1 where
  pub Heap : Type 0
  pub refcount : Heap → Bytes → ℕ
  -- `zend_string_addref`
  pub addref : Heap → Bytes → Heap
  -- `zend_string_init`, `smart_str_extract`: a new string with one reference
  pub create : Heap → Bytes → Heap
  -- `zend_string_delref`
  pub delref : Heap → Bytes → Run Heap
  -- `zend_string_free` of a string that has one reference
  pub free : Heap → Bytes → Run Heap
  pub refcount-addref : (h : Heap) (s t : Bytes) → refcount (addref h s) t ≡ refcount h t + one s t
  pub refcount-create : (h : Heap) (s t : Bytes) → refcount (create h s) t ≡ refcount h t + one s t
  pub delref-ok :
      (h : Heap) (s : Bytes)
      → 0 < refcount h s
      → (h' : Heap) × (delref h s ≡ ok h') × ((t : Bytes) → refcount h' t + one s t ≡ refcount h t)
  pub free-ok :
      (h : Heap) (s : Bytes)
      → 0 < refcount h s
      → (h' : Heap) × (free h s ≡ ok h') × ((t : Bytes) → refcount h' t + one s t ≡ refcount h t)
