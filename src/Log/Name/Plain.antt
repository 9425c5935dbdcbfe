-- ===== src/Log/Name/Plain.antt =====
-- The name of a frame that has a file is always printed, and holds no space and no NUL.

use mediawiki_php_excimer.Prelude.{
  ℕ, ◌<◌, ◌≡◌, ◌≢◌, refl, inl, inr, Option, none, some, [], ◌∷◌, ◌++◌, arith, Bool-cases, map, ◌==◌,
}
use mediawiki_php_excimer.Bytes.{Bytes, format_int}
use mediawiki_php_excimer.Bytes.Separator.{Lacks, Lacks-append}
use mediawiki_php_excimer.Bytes.Decimal.{Lacks-format_int}
use mediawiki_php_excimer.Run.{Run, ok}
use mediawiki_php_excimer.Log.{Frame}
use mediawiki_php_excimer.Log.Key.{codes}
use mediawiki_php_excimer.Log.Name.{
  no_space, class_prefix, function_part, closure_part, append_no_spaces, append_frame_name,
}

abbrev pub HasFile : Frame → Type 0
HasFile f = (s : Bytes) × (f.filename ≡ some s)

pub no_space-ne : (c : ℕ) → no_space c ≢ b' '
unfolding no_space
no_space-ne c = ground arith

pub no_space-ne-nul : (c : ℕ) → no_space c ≢ 0
unfolding no_space
no_space-ne-nul c = ground arith

-- The outcome is a text without the byte.
pub record Appends (c : ℕ) (outcome : Run Bytes) : Type 0 where
  pub text : Bytes
  pub succeeds : outcome ≡ ok text
  pub plain : Lacks c text

-- A byte that no name is given.
module _ (c : ℕ) (low : c < b'(') (gone : (x : ℕ) → no_space x ≢ c) where
  Lacks-map-no_space : (src : Bytes) → Lacks c (map no_space src)
  Lacks-map-no_space [] = tt
  Lacks-map-no_space (x ∷ src) = (gone x, Lacks-map-no_space src)

  Lacks-append_no_spaces : (dest src : Bytes) → Lacks c dest → Lacks c (append_no_spaces dest src)
  unfolding append_no_spaces
  Lacks-append_no_spaces dest src h =
      Lacks-append c dest (map no_space src) h (Lacks-map-no_space src)

  class_prefix-Lacks :
      (ss : Bytes) (name : Option Bytes) → Lacks c ss → Lacks c (class_prefix ss name)
  unfolding class_prefix
  class_prefix-Lacks ss none h = h
  class_prefix-Lacks ss (some name) h =
      Lacks-append c (append_no_spaces ss name) (codes "::") (Lacks-append_no_spaces ss name h)
        (omega arith)

  function_part-Appends :
      (ss : Bytes) (f : Frame) (name : Option Bytes)
      → HasFile f
      → Lacks c ss
      → Appends c (function_part ss f name)
  unfolding function_part
  function_part-Appends ss f none (s, e) h = record {
    text = append_no_spaces ss s;
    succeeds = rw e;
    plain = Lacks-append_no_spaces ss s h;
  }
  function_part-Appends ss f (some name) file h = record {
    text = append_no_spaces (class_prefix ss f.class_name) name;
    succeeds = refl;
    plain =
        Lacks-append_no_spaces (class_prefix ss f.class_name) name
          (class_prefix-Lacks ss f.class_name h);
  }

  closure_part-Appends :
      (ss : Bytes) (f : Frame) → HasFile f → Lacks c ss → Appends c (closure_part ss f)
  unfolding closure_part
  closure_part-Appends ss f (s, e) h =
      let opened = ss ++ codes "{closure:" in
      let line = format_int f.closure_line in
      record {
        text = append_no_spaces opened s ++ (codes "(" ++ (line ++ codes ")}"));
        succeeds = rw e;
        plain =
            Lacks-append c (append_no_spaces opened s) (codes "(" ++ (line ++ codes ")}"))
              (Lacks-append_no_spaces opened s
                (Lacks-append c ss (codes "{closure:") h (omega arith)))
              (
                omega arith,
                Lacks-append c line (codes ")}") (Lacks-format_int c f.closure_line (omega arith))
                    (omega arith),
              );
      }

  pub append_frame_name-Appends :
      (ss : Bytes) (f : Frame) → HasFile f → Lacks c ss → Appends c (append_frame_name ss f)
  unfolding append_frame_name
  append_frame_name-Appends ss f file h = elim (Bool-cases (f.closure_line == 0)) [
    | inl plain ↦ rw plain (function_part-Appends ss f f.function_name file h)
    | inr closure ↦ rw closure (closure_part-Appends ss f file h)
  ]
