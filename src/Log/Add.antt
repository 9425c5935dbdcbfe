-- ===== src/Log/Add.antt =====
-- What excimer_log_add promises.
use mediawiki_php_excimer.Prelude.{
  ℕ, ◌+◌, ◌^◌, ◌<◌, ◌≤◌, ◌≡◌, refl, ap, List, [], ◌∷◌, ◌++◌, arith, length, get_elem?-lt,
}
use mediawiki_php_excimer.Prelude.Int.{ℤ}
use mediawiki_php_excimer.Run.{ok, >>=-eq-ok}
use mediawiki_php_excimer.Zend.{HashApi, str, find-new}
use mediawiki_php_excimer.Log.{Entry, Log, init, zero_frame}
use mediawiki_php_excimer.Log.Sample.{Call, find_or_add_frame, push_entry, add}
use mediawiki_php_excimer.Log.Valid.{
  All-snoc, total, total-append, IsValid, Extends-Grows, Grows, Grows-trans,
}
use mediawiki_php_excimer.Log.Depth.{Place, recorded}
use mediawiki_php_excimer.Log.Recorded.{Backtrace, Lines, Records, find_or_add_frame-Records}
use mediawiki_php_excimer.Log.Total.{find_or_add_frame-Succeeds}
use mediawiki_php_excimer.Log.Again.{find_or_add_frame_again}

abbrev pub entry : ℕ → ℕ → ℕ → Entry
entry frame_index event_count timestamp = record {
  frame_index = frame_index;
  event_count = event_count;
  timestamp = timestamp;
}

module _ ⦃Z : HashApi⦄ where
  -- A log is valid after `excimer_log_init`, whatever the memory held.
  pub init-IsValid : (log : Log Z) → IsValid (init log)
  unfolding init total
  init-IsValid log = record {
    zeroth = refl;
    fits = omega arith;
    linked = λ i frame positive found. ground (arith, get_elem?-lt (zero_frame ∷ []) i frame found);
    named = λ key value found. cc (find-new {V = ℤ} (str key));
    sampled = tt;
    counted = refl;
  }

  -- A log that has one more sample, with the backtrace of the stack.
  pub record Added (log : Log Z) (stack : List Call) (event_count timestamp : ℕ) (log' : Log Z)
      : Type 0 where
    pub valid : IsValid log'
    pub grows : Grows log log'
    pub index : ℕ
    pub inside : index < length log'.frames
    pub sample : log'.entries ≡ log.entries ++ entry index event_count timestamp ∷ []
    pub backtrace : Backtrace log'.frames index (recorded log.max_depth stack)
    pub growth : length log'.frames ≤ length log.frames + length stack

  Grows-push_entry :
      (log : Log Z) (i event_count timestamp : ℕ)
      → Grows log (push_entry log i event_count timestamp)
  unfolding push_entry
  Grows-push_entry log i event_count timestamp = record {
    frames = λ j frame h. h;
    keys = λ key value h. h;
    max_depth = refl;
  }

  push_entry-IsValid :
      (log : Log Z) (i event_count timestamp : ℕ)
      → IsValid log
      → i < length log.frames
      → IsValid (push_entry log i event_count timestamp)
  unfolding push_entry
  push_entry-IsValid log i event_count timestamp v inside =
      let sum = v.counted in
      record {
        zeroth = v.zeroth;
        fits = v.fits;
        linked = v.linked;
        named = v.named;
        sampled =
            All-snoc (λ (e : Entry). e.frame_index < length log.frames) log.entries
              (entry i event_count timestamp) v.sampled inside;
        counted = omega (arith, total-append log.entries (entry i event_count timestamp));
      }

  entries-push_entry :
      (log : Log Z) (ps : List Place) (event_count timestamp : ℕ) (r : ℕ × Log Z)
      → Records log ps r
      → (push_entry r.1 r.0 event_count timestamp).entries
        ≡ log.entries ++ entry r.0 event_count timestamp ∷ []
  unfolding push_entry
  entries-push_entry log ps event_count timestamp r rec =
      ap (λ entries. entries ++ entry r.0 event_count timestamp ∷ []) rec.extends.entries

  push_entry-Added :
      (log : Log Z) (stack : List Call) (event_count timestamp : ℕ) (r : ℕ × Log Z)
      → Records log (recorded log.max_depth stack) r
      → length r.1.frames ≤ length log.frames + length stack
      → Added log stack event_count timestamp (push_entry r.1 r.0 event_count timestamp)
  push_entry-Added log stack event_count timestamp r rec growth = record {
    valid = push_entry-IsValid r.1 r.0 event_count timestamp rec.valid rec.inside;
    grows =
        Grows-trans (Extends-Grows rec.extends) (Grows-push_entry r.1 r.0 event_count timestamp);
    index = r.0;
    inside = unfold push_entry in rec.inside;
    sample = entries-push_entry log _ event_count timestamp r rec;
    backtrace = unfold push_entry in rec.backtrace;
    growth = unfold push_entry in growth;
  }

  -- Adding a sample to a valid log succeeds if the frames fit in 32 bits with one for each call.
  -- The log stays valid, keeps what it held, and has one more entry, whose frame index leads
  -- through the part of the stack that the depth limit lets through.
  pub add-Added :
      (log : Log Z) (stack : List Call) (event_count timestamp : ℕ)
      → IsValid log
      → Lines stack
      → length log.frames + length stack ≤ 2 ^ 32
      → (log' : Log Z) × (add log stack event_count timestamp ≡ ok log')
        × Added log stack event_count timestamp log'
  unfolding add
  add-Added log stack event_count timestamp v lines room =
      let s = find_or_add_frame-Succeeds log stack 0 v lines room in
      let r = s.result in
      let rec = find_or_add_frame-Records log stack r v lines s.succeeds in
      (
        push_entry r.1 r.0 event_count timestamp,
        rw s.succeeds,
        push_entry-Added log stack event_count timestamp r rec s.growth,
      )

  -- A stack that was added once is added again, at any later time, by an entry with the same frame
  -- index, and nothing else of the log changes but the event count.
  pub add_again :
      (log : Log Z) (stack : List Call) (event_count timestamp n t : ℕ) (log' later : Log Z)
      → IsValid log
      → Lines stack
      → add log stack event_count timestamp ≡ ok log'
      → Grows log' later
      → (i : ℕ) × (log'.entries ≡ log.entries ++ entry i event_count timestamp ∷ [])
        × (add later stack n t ≡ ok (push_entry later i n t))
  unfolding add
  add_again log stack event_count timestamp n t log' later v lines h grows =
      let (r, e_frame, e_entry) =
        >>=-eq-ok (find_or_add_frame log stack 0)
          (λ (p : ℕ × Log Z). ok (push_entry p.1 p.0 event_count timestamp)) h in
      let rec = find_or_add_frame-Records log stack r v lines e_frame in
      let is_pushed : log' ≡ push_entry r.1 r.0 event_count timestamp = cc in
      let from_r =
        Grows-trans (Grows-push_entry r.1 r.0 event_count timestamp) (rw is_pushed at grows) in
      (
        r.0,
        rw is_pushed (entries-push_entry log _ event_count timestamp r rec),
        rw (find_or_add_frame_again log stack 0 r v lines e_frame later from_r),
      )
