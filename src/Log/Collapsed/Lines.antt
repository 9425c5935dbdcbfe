-- ===== src/Log/Collapsed/Lines.antt =====
-- The lines of the collapsed format: they are produced without a fault, hold no space, and their
-- counts add up to the event count of the log.
use mathlib.Core.List.{reverse, reverse_aux}
use mediawiki_php_excimer.Prelude.{
  ℕ, ◌+◌, ◌%◌, ◌^◌, ◌<◌, ◌≡◌, refl, Bool, true, false, List, [], ◌∷◌, ◌++◌, arith, length,
  if◌then◌else◌,
}
use mediawiki_php_excimer.Bytes.{Bytes}
use mediawiki_php_excimer.Bytes.Separator.{Lacks, Lacks-append}
use mediawiki_php_excimer.Run.{Run, ok, fatal, fault, out_of_fuel, blocked}
use mediawiki_php_excimer.Zend.{HashApi, Key, str, key_eq}
use mediawiki_php_excimer.Log.{Frame, Log}
use mediawiki_php_excimer.Log.Key.{codes}
use mediawiki_php_excimer.Log.Name.Plain.{Appends, HasFile, append_frame_name-Appends, no_space-ne}
use mediawiki_php_excimer.Log.Valid.{All, IsValid}
use mediawiki_php_excimer.Log.Walk.{Visits, Walks-total}
use mediawiki_php_excimer.Log.Collapsed.{
  join_names, add_count, collate_counts, format_line, format_lines, collapsed_lines, concat_lines,
  format_collapsed, num_key,
}
use mediawiki_php_excimer.Log.Collapsed.Counts.{
  weight, weight_of, any_key, events_of, events_of-any, Keys, Keys-add_count, weight_of-add_count,
  weight_of-collate_counts, Keys-collate_counts,
}

-- The text before a name: a separator stands between two names.
separated :
    (ss : Bytes) (start : Bool) → Lacks b' ' ss → Lacks b' ' (if start then ss else ss ++ codes ";")
separated ss true h = h
separated ss false h = Lacks-append b' ' ss (codes ";") h (omega arith)

join_names-Appends :
    (ss : Bytes) (start : Bool) (fs : List Frame)
    → All HasFile fs
    → Lacks b' ' ss
    → Appends b' ' (join_names ss start fs)
unfolding join_names
join_names-Appends ss start [] files h = record { text = ss; succeeds = refl; plain = h }
join_names-Appends ss start (f ∷ fs) files h =
    let before : Bytes = if start then ss else ss ++ codes ";" in
    let named =
      append_frame_name-Appends b' ' (omega arith) no_space-ne before f files.0
        (separated ss start h) in
    rw named.succeeds (join_names-Appends named.text false fs files.1 named.plain)

All-reverse_aux {ℓ κ} :
    {A : Type ℓ} (P : A → Type κ) (xs ys : List A) → All P xs → All P ys → All P (reverse_aux xs ys)
All-reverse_aux P [] ys h k = k
All-reverse_aux P (x ∷ xs) ys h k = All-reverse_aux P xs (x ∷ ys) h.1 (h.0, k)

module _ ⦃Z : HashApi⦄ where
  pub Visits-HasFile :
      (log : Log Z) (i : ℕ) (fs : List Frame)
      → IsValid log
      → Visits log.frames i fs
      → All HasFile fs
  Visits-HasFile log i [] v h = tt
  Visits-HasFile log i (f ∷ fs) v (found, before, rest) =
      let is_frame = v.linked i f (omega arith) found in
      ((is_frame.file, is_frame.has_file), Visits-HasFile log f.prev_index fs v rest)

  -- The line of a frame index is printed without a fault, and holds no space.
  format_line-Appends :
      (log : Log Z) (i : ℕ) → IsValid log → i < length log.frames → Appends b' ' (format_line log i)
  unfolding format_line
  format_line-Appends log i v inside =
      let (fs, w) = Walks-total log i v inside in
      rw w.collect (
        join_names-Appends [] true (reverse fs)
          (All-reverse_aux HasFile fs [] (Visits-HasFile log i fs v w.visits) tt) tt)

  abbrev InFrames : Log Z → Key → Type 0
  InFrames log key = num_key key < length log.frames

  -- A key of the table of lines: a text with no space.
  pub data IsLine (key : Key) : Type 0 where
    line : (text : Bytes) → key ≡ str text → Lacks b' ' text → IsLine key

  -- A test on the frame indexes that says what a test on the lines says of the line of the frame.
  abbrev pub Agree : Log Z → (Key → Bool) → (Key → Bool) → Type 0
  Agree log on_line on_frame =
      (key : Key) (text : Bytes)
      → format_line log (num_key key) ≡ ok text
      → on_line (str text) ≡ on_frame key

  -- The table of lines that a pass over the frame counts yields.
  pub record Formats (log : Log Z) (t : Z.Table ℕ) (counts : List (Key × ℕ))
      (outcome : Run (Z.Table ℕ)) : Type 0 where
    pub lines : Z.Table ℕ
    pub succeeds : outcome ≡ ok lines
    pub sum :
        (on_line on_frame : Key → Bool)
        → Agree log on_line on_frame
        → weight_of on_line (Z.items lines) % 2 ^ 64
          ≡ (weight_of on_line (Z.items t) + weight_of on_frame counts) % 2 ^ 64
    pub plain : Keys IsLine (Z.items lines)

  format_lines-Formats :
      (log : Log Z) (t : Z.Table ℕ) (counts : List (Key × ℕ))
      → IsValid log
      → Keys (InFrames log) counts
      → Keys IsLine (Z.items t)
      → Formats log t counts (format_lines log t counts)
  unfolding format_lines weight_of
  format_lines-Formats log t [] v inside plain = record {
    lines = t;
    succeeds = refl;
    sum = λ on_line on_frame agree. omega arith;
    plain = plain;
  }
  format_lines-Formats log t ((key, count) ∷ rest) v inside plain =
      let f = format_line-Appends log (num_key key) v inside.0 in
      let t' = add_count t (str f.text) count in
      let plain' = Keys-add_count IsLine t (str f.text) count plain (line f.text refl f.plain) in
      let r = format_lines-Formats log t' rest v inside.1 plain' in
      rw f.succeeds (record {
        lines = r.lines;
        succeeds = r.succeeds;
        sum = λ on_line on_frame agree.
            let later = r.sum on_line on_frame agree in
            let here = agree key f.text f.succeeds in
            let added = weight_of-add_count on_line t (str f.text) count in ground arith;
        plain = r.plain;
      })

  weight_of-new : (P : Key → Bool) → weight_of P (Z.items (Z.new ℕ)) ≡ 0
  unfolding weight_of
  weight_of-new P = rw (Z.items-new ℕ)

  -- The line reads `text`.
  abbrev pub reads : Bytes → Key → Bool
  reads text key = key_eq key (str text)

  unfoldable pub is_text : Bytes → Run Bytes → Bool
  is_text text (ok line_text) = key_eq (str line_text) (str text)
  is_text text fatal = false
  is_text text fault = false
  is_text text out_of_fuel = false
  is_text text blocked = false

  -- The line of the frame reads `text`.
  pub leads_to : Log Z → Bytes → Key → Bool
  leads_to log text key = is_text text (format_line log (num_key key))

  reads-Agree : (log : Log Z) (text : Bytes) → Agree log (reads text) (leads_to log text)
  unfolding leads_to is_text key_eq
  reads-Agree log text key line_text e = rw e refl

  -- On a valid log the collapsed format is produced without a fault. Its lines hold no space before
  -- the count, and for every text the counts of the lines that read it are together the events of the
  -- entries whose backtrace is printed so; all counts are together the event count of the log, as
  -- 64-bit numbers.
  pub format_collapsed-sum :
      (log : Log Z)
      → IsValid log
      → (lines : Z.Table ℕ) × (collapsed_lines log ≡ ok lines)
        × (format_collapsed log ≡ ok (concat_lines [] (Z.items lines)))
        × ((text : Bytes)
            → weight_of (reads text) (Z.items lines) % 2 ^ 64
              ≡ events_of (leads_to log text) log.entries % 2 ^ 64)
        × (weight (Z.items lines) % 2 ^ 64 ≡ log.event_count)
        × Keys IsLine (Z.items lines)
  unfolding collapsed_lines format_collapsed
  format_collapsed-sum log v =
      let counts = Z.items (collate_counts (Z.new ℕ) log.entries) in
      let inside =
        Keys-collate_counts (InFrames log) (Z.new ℕ) log.entries (rw (Z.items-new ℕ) tt)
          v.sampled in
      let r = format_lines-Formats log (Z.new ℕ) counts v inside (rw (Z.items-new ℕ) tt) in
      let counted = v.counted in
      (
        r.lines,
        r.succeeds,
        rw r.succeeds,
        λ text. omega (
          arith,
          r.sum (reads text) (leads_to log text) (reads-Agree log text),
          weight_of-new (reads text),
          weight_of-new (leads_to log text),
          weight_of-collate_counts (leads_to log text) (Z.new ℕ) log.entries,
        ),
        omega (
          arith,
          r.sum any_key any_key (λ key text e. refl),
          weight_of-new any_key,
          weight_of-collate_counts any_key (Z.new ℕ) log.entries,
          events_of-any log.entries,
        ),
        r.plain,
      )
