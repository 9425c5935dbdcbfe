-- ===== src/Log/Collapsed.antt =====
-- excimer_log_format_collapsed of excimer_log.c. Counts are `zend_long` values as 64-bit patterns.
-- The two tables have keys of one kind each, so the foreach macros always find that kind.
pub mod Counts
pub mod Lines
use mathlib.Core.List.{reverse}
use mediawiki_php_excimer.Prelude.{
  ℕ, ◌+◌, ◌%◌, ◌^◌, Bool, true, false, Option, none, some, List, [], ◌∷◌, ◌++◌, if◌then◌else◌,
}
use mediawiki_php_excimer.Bytes.{Bytes, format_long}
use mediawiki_php_excimer.Run.{Run, ok, ◌>>=◌}
use mediawiki_php_excimer.Zend.{HashApi, Key, num, str}
use mediawiki_php_excimer.Log.{Frame, Entry, Log}
use mediawiki_php_excimer.Log.Key.{codes}
use mediawiki_php_excimer.Log.Name.{append_frame_name}
use mediawiki_php_excimer.Log.Trace.{collect_frames}

-- `ZEND_HASH_FOREACH_NUM_KEY_VAL` and `ZEND_HASH_FOREACH_STR_KEY_VAL`.
abbrev pub num_key : Key → ℕ
num_key (num i) = i
num_key (str s) = 0

abbrev pub str_key : Key → Bytes
str_key (num i) = []
str_key (str s) = s

-- The names of the frames, the outermost first, with ';' between.
unfoldable pub join_names : Bytes → Bool → List Frame → Run Bytes
join_names ss_line line_start [] = ok ss_line
join_names ss_line line_start (frame ∷ frames) = do
  ss ← append_frame_name (if line_start then ss_line else ss_line ++ codes ";") frame
  join_names ss false frames

unfoldable pub concat_lines : Bytes → List (Key × ℕ) → Bytes
concat_lines ss_out [] = ss_out
concat_lines ss_out ((key, count) ∷ rest) =
    concat_lines (ss_out ++ (str_key key ++ (codes " " ++ (format_long count ++ (10 ∷ []))))) rest

module _ ⦃Z : HashApi⦄ where
  -- Adds a zero if the key is absent, and then the term to the value.
  unfoldable pub add_count : Z.Table ℕ → Key → ℕ → Z.Table ℕ
  add_count ht key term = elim (Z.find ht key) [
    | none ↦ Z.assign (Z.add ht key 0) key ((0 + term) % 2 ^ 64)
    | some count ↦ Z.assign ht key ((count + term) % 2 ^ 64)
  ]

  unfoldable pub collate_counts : Z.Table ℕ → List Entry → Z.Table ℕ
  collate_counts ht [] = ht
  collate_counts ht (e ∷ entries) =
      collate_counts (add_count ht (num e.frame_index) e.event_count) entries

  unfoldable pub format_line : Log Z → ℕ → Run Bytes
  format_line log frame_index = do
    frame_ptrs ← collect_frames log frame_index
    join_names [] true (reverse frame_ptrs)

  unfoldable pub format_lines : Log Z → Z.Table ℕ → List (Key × ℕ) → Run (Z.Table ℕ)
  format_lines log ht_lines [] = ok ht_lines
  format_lines log ht_lines ((key, count) ∷ rest) = do
    str_line ← format_line log (num_key key)
    format_lines log (add_count ht_lines (str str_line) count) rest

  unfoldable pub collapsed_lines : Log Z → Run (Z.Table ℕ)
  collapsed_lines log = format_lines log (Z.new ℕ) (Z.items (collate_counts (Z.new ℕ) log.entries))

  unfoldable pub format_collapsed : Log Z → Run Bytes
  format_collapsed log = do ht_lines ← collapsed_lines log; ok (concat_lines [] (Z.items ht_lines))
