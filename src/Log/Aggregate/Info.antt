-- ===== src/Log/Aggregate/Info.antt =====
-- The information on one function: its two counts, and how they change.
use mediawiki_php_excimer.Prelude.{
  ℕ, zero, suc, ◌+◌, ◌%◌, ◌^◌, ◌≡◌, refl, ◌∙◌, false, Option, none, some,
}
use mediawiki_php_excimer.Bytes.{Bytes, bytes_eq}
use mediawiki_php_excimer.Zend.{HashApi, Key, str, key_eq, find-add, find-assign, find-new}
use mediawiki_php_excimer.Log.{Frame}
use mediawiki_php_excimer.Log.Key.{codes}
use mediawiki_php_excimer.Log.Trace.{
  Zval, long, string, add_file, add_string, add_closure, frame_to_array,
}
use mediawiki_php_excimer.Log.Aggregate.{self_key, inclusive_key, array_incr, new_info}

module _ ⦃Z : HashApi⦄ where
  -- The two counts of an information.
  pub record IsInfo (info : Z.Table Zval) (self inclusive : ℕ) : Type 0 where
    pub has_self : Z.find info (str self_key) ≡ some (long self)
    pub has_inclusive : Z.find info (str inclusive_key) ≡ some (long inclusive)

  add-absent :
      (ht : Z.Table Zval) (j k : Key) (z : Zval)
      → Z.find ht j ≡ none
      → key_eq j k ≡ false
      → Z.find ht k ≡ none
      → Z.find (Z.add ht j z) k ≡ none
  add-absent ht j k z h e a = rw (find-add ht j k z h, e) a

  add_string-absent :
      (ht : Z.Table Zval) (j : Bytes) (s : Option Bytes) (k : Key)
      → Z.find ht (str j) ≡ none
      → key_eq (str j) k ≡ false
      → Z.find ht k ≡ none
      → Z.find (add_string ht j s) k ≡ none
  unfolding add_string
  add_string-absent ht j none k h e a = a
  add_string-absent ht j (some s) k h e a = add-absent ht (str j) k (string s) h e a

  add_file-absent :
      (s : Option Bytes) (n : ℕ) (k : Key)
      → key_eq (str (codes "file")) k ≡ false
      → key_eq (str (codes "line")) k ≡ false
      → Z.find (add_file (Z.new Zval) s n) k ≡ none
  unfolding add_file key_eq bytes_eq
  add_file-absent none n k e f = find-new k
  add_file-absent (some s) n k e f =
      let before =
        add-absent (Z.new Zval) (str (codes "file")) (str (codes "line")) (string s) (find-new _)
          refl (find-new _) in
      add-absent (Z.add (Z.new Zval) (str (codes "file")) (string s)) (str (codes "line")) k
        (long n) before f
        (add-absent (Z.new Zval) (str (codes "file")) k (string s) (find-new _) e (find-new k))

  add_closure-absent :
      (ht : Z.Table Zval) (n : ℕ) (k : Key)
      → Z.find ht (str (codes "closure_line")) ≡ none
      → key_eq (str (codes "closure_line")) k ≡ false
      → Z.find ht k ≡ none
      → Z.find (add_closure ht n) k ≡ none
  unfolding add_closure
  add_closure-absent ht zero k h e a = a
  add_closure-absent ht (suc n) k h e a =
      add-absent ht (str (codes "closure_line")) k (long (suc n)) h e a

  -- A key that no frame uses is absent from the array of a frame.
  frame_to_array-absent :
      (f : Frame) (k : Bytes)
      → key_eq (str (codes "file")) (str k) ≡ false
      → key_eq (str (codes "line")) (str k) ≡ false
      → key_eq (str (codes "class")) (str k) ≡ false
      → key_eq (str (codes "function")) (str k) ≡ false
      → key_eq (str (codes "closure_line")) (str k) ≡ false
      → Z.find (frame_to_array f) (str k) ≡ none
  unfolding frame_to_array key_eq bytes_eq
  frame_to_array-absent f k e1 e2 e3 e4 e5 =
      let file = add_file (Z.new Zval) f.filename f.lineno in
      let class = add_string file (codes "class") f.class_name in
      let function = add_string class (codes "function") f.function_name in
      let in_file =
        λ (j : Bytes) (a : key_eq (str (codes "file")) (str j) ≡ false)
            (b : key_eq (str (codes "line")) (str j) ≡ false).
          add_file-absent f.filename f.lineno (str j) a b in
      let in_class =
        λ (j : Bytes) (a : key_eq (str (codes "class")) (str j) ≡ false)
            (b : Z.find file (str j) ≡ none).
          add_string-absent file (codes "class") f.class_name (str j)
            (in_file (codes "class") refl refl) a b in
      let in_function =
        λ (j : Bytes) (a : key_eq (str (codes "function")) (str j) ≡ false)
            (b : Z.find class (str j) ≡ none).
          add_string-absent class (codes "function") f.function_name (str j)
            (in_class (codes "function") refl (in_file (codes "function") refl refl)) a b in
      add_closure-absent function f.closure_line (str k)
        (in_function (codes "closure_line") refl
          (in_class (codes "closure_line") refl (in_file (codes "closure_line") refl refl)))
        e5 (in_function k e4 (in_class k e3 (in_file k e1 e2)))

  -- A new information counts zero.
  pub new_info-IsInfo : (f : Frame) → IsInfo (new_info f) 0 0
  unfolding new_info key_eq bytes_eq
  new_info-IsInfo f =
      let frame = frame_to_array f in
      let with_self = Z.add frame (str self_key) (long 0) in
      let no_self = frame_to_array-absent f self_key refl refl refl refl refl in
      let no_inclusive = frame_to_array-absent f inclusive_key refl refl refl refl refl in
      let still_none =
        add-absent frame (str self_key) (str inclusive_key) (long 0) no_self refl no_inclusive in
      record {
        has_self =
            find-add with_self (str inclusive_key) (str self_key) (long 0) still_none
            ∙ find-add frame (str self_key) (str self_key) (long 0) no_self;
        has_inclusive =
            find-add with_self (str inclusive_key) (str inclusive_key) (long 0) still_none;
      }

  array_incr-some :
      (info : Z.Table Zval) (key : Bytes) (term n : ℕ)
      → Z.find info (str key) ≡ some (long n)
      → array_incr info key term ≡ Z.assign info (str key) (long ((n + term) % 2 ^ 64))
  unfolding array_incr
  array_incr-some info key term n h = rw (h, array_incr)

  pub array_incr_self :
      (info : Z.Table Zval) (term self inclusive : ℕ)
      → IsInfo info self inclusive
      → IsInfo (array_incr info self_key term) ((self + term) % 2 ^ 64) inclusive
  unfolding key_eq bytes_eq
  array_incr_self info term self inclusive h =
      let sum : Zval = long ((self + term) % 2 ^ 64) in
      let incr = array_incr-some info self_key term self h.has_self in
      let written = λ (k : Key). find-assign info (str self_key) k sum (long self) h.has_self in
      record {
        has_self = rw incr (written (str self_key));
        has_inclusive = rw incr (written (str inclusive_key) ∙ h.has_inclusive);
      }

  pub array_incr_inclusive :
      (info : Z.Table Zval) (term self inclusive : ℕ)
      → IsInfo info self inclusive
      → IsInfo (array_incr info inclusive_key term) self ((inclusive + term) % 2 ^ 64)
  unfolding key_eq bytes_eq
  array_incr_inclusive info term self inclusive h =
      let sum : Zval = long ((inclusive + term) % 2 ^ 64) in
      let incr = array_incr-some info inclusive_key term inclusive h.has_inclusive in
      let written =
        λ (k : Key). find-assign info (str inclusive_key) k sum (long inclusive) h.has_inclusive in
      record {
        has_self = rw incr (written (str self_key) ∙ h.has_self);
        has_inclusive = rw incr (written (str inclusive_key));
      }
