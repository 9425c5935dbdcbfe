-- ===== src/Zend/Handles.antt =====
-- A concrete heap of objects, a count for each handle, at which the theorems can be run.
use mediawiki_php_excimer.Prelude.{
  ℕ, ◌+◌, ◌-◌, ◌<◌, ◌≤◌, ◌≡◌, refl, Bool, false, arith, ◌==◌, if◌then◌else◌,
}
use mediawiki_php_excimer.Run.{Run, ok, fault}
use mediawiki_php_excimer.Timer.{update}
use mediawiki_php_excimer.Zend.Objects.{ObjectApi}

-- The handles from `next` on are unused.
pub record HandleCounts : Type 0 where
  pub count : ℕ → ℕ
  pub next : ℕ
  pub unused : (k : ℕ) → next ≤ k → count k ≡ 0

abbrev pub create : HandleCounts → ℕ × HandleCounts
create h = (
  h.next,
  record {
    count = update h.count h.next 1;
    next = h.next + 1;
    unused = λ k le. ground (arith, h.unused k);
  },
)

abbrev pub copy : HandleCounts → ℕ → HandleCounts
copy h o = record {
  count = update h.count o (h.count o + 1);
  next = h.next + (o + 1);
  unused = λ k le. ground (arith, h.unused k);
}

abbrev pub drop_one : HandleCounts → ℕ → HandleCounts
drop_one h o = record {
  count = update h.count o (h.count o - 1);
  next = h.next;
  unused = λ k le. ground (arith, h.unused k);
}

abbrev pub release_one : HandleCounts → ℕ → Run (Bool × HandleCounts)
release_one h o = if h.count o == 0 then fault else ok (h.count o == 1, drop_one h o)

pub release_one-ok :
    (h : HandleCounts) (o : ℕ)
    → 0 < h.count o
    → (h' : HandleCounts) × (release_one h o ≡ ok (h.count o == 1, h'))
      × ((k : ℕ) → h'.count k ≡ (if k == o then h.count k - 1 else h.count k))
release_one-ok h o p =
    let some_left : (h.count o == 0) ≡ false = ground arith in
    (drop_one h o, rw some_left refl, λ k. ground arith)

instance abbrev pub handles : ObjectApi
handles = record {
  Heap = HandleCounts;
  refs = λ h k. h.count k;
  create = create;
  copy = copy;
  zval_ptr_dtor = release_one;
  refs-unused = λ h. h.unused h.next (omega arith);
  refs-create = λ h k. refl;
  refs-copy = λ h o k. ground arith;
  zval_ptr_dtor-ok = release_one-ok;
}
