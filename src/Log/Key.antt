-- ===== src/Log/Key.antt =====
-- The key under which a frame stands in `reverse_frames` (excimer_log_find_or_add_frame and
-- excimer_log_get_truncation_marker of excimer_log.c).
use Prim.Native.Char.{code}
use Prim.Native.String.{String}
use mediawiki_php_excimer.Prelude.{ℕ, ◌^◌, ◌<◌, ◌≡◌, ◌≢◌, sym, ◌∙◌, [], ◌∷◌, ◌++◌, arith}
use mathlib.Core.Path.{subst}
use mathlib.Core.List.{append_assoc}
use mediawiki_php_excimer.Bytes.{Bytes, format_int}
use mediawiki_php_excimer.Bytes.Decimal.{format_int_injective, Lacks-format_int}
use mediawiki_php_excimer.Bytes.Separator.{Lacks, cut_unique, Lacks-middle}

-- The bytes of an ASCII text.
abbrev pub codes : String → Bytes
codes String.[] = []
codes (String.◌∷◌ c s) = code c ∷ codes s

abbrev pub truncated_name : Bytes
truncated_name = codes "excimer_truncated"

abbrev pub fake_filename : Bytes
fake_filename = codes "excimer fake file"

-- filename NUL lineno NUL prev_index
unfoldable pub frame_key : Bytes → ℕ → ℕ → Bytes
frame_key filename lineno prev_index =
    filename ++ (0 ∷ (format_int lineno ++ (0 ∷ format_int prev_index)))

module _ (f g : Bytes) (l m p q : ℕ) where
  -- Two locations with one key have the same file, line and caller, whatever bytes the file names
  -- hold.
  pub frame_key_injective :
      l < 2 ^ 32
      → m < 2 ^ 32
      → p < 2 ^ 32
      → q < 2 ^ 32
      → frame_key f l p ≡ frame_key g m q
      → (f ≡ g) × (l ≡ m) × (p ≡ q)
  unfolding frame_key
  frame_key_injective hl hm hp hq e =
      let a = format_int l in
      let b = format_int m in
      let outer =
        cut_unique 0 (f ++ (0 ∷ a)) (g ++ (0 ∷ b)) (format_int p) (format_int q)
          (Lacks-format_int 0 p (omega arith)) (Lacks-format_int 0 q (omega arith))
          (append_assoc f (0 ∷ a) (0 ∷ format_int p)
            ∙ (e ∙ sym (append_assoc g (0 ∷ b) (0 ∷ format_int q)))) in
      let inner =
        cut_unique 0 f g a b (Lacks-format_int 0 l (omega arith))
          (Lacks-format_int 0 m (omega arith)) outer.0 in
      (inner.0, format_int_injective l m hl hm inner.1, format_int_injective p q hp hq outer.1)

-- No location has the key of the truncation marker.
pub frame_key-ne-truncated : (f : Bytes) (l p : ℕ) → frame_key f l p ≢ truncated_name
unfolding frame_key
frame_key-ne-truncated f l p e =
    Lacks-middle 0 f (format_int l ++ (0 ∷ format_int p))
      (subst (λ t. Lacks 0 t) (sym e) (omega arith))
