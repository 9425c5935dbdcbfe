-- ===== src/Log/Strings/Released.antt =====
-- excimer_log_destroy drops the references that recording has kept.
use mediawiki_php_excimer.Prelude.{ℕ, ◌+◌, ◌^◌, ◌≤◌, ◌≡◌, refl, List, [], ◌∷◌, arith, length}
use mediawiki_php_excimer.Bytes.{Bytes}
use mediawiki_php_excimer.Run.{Run, ok}
use mediawiki_php_excimer.Zend.{HashApi}
use mediawiki_php_excimer.Zend.Strings.{StringApi}
use mediawiki_php_excimer.Log.{Log, init}
use mediawiki_php_excimer.Log.Sample.{find_or_add_frame, push_entry, add}
use mediawiki_php_excimer.Log.Valid.{IsValid}
use mediawiki_php_excimer.Log.Recorded.{Lines}
use mediawiki_php_excimer.Log.Total.{find_or_add_frame-Succeeds}
use mediawiki_php_excimer.Log.Add.{init-IsValid, add-Added}
use mediawiki_php_excimer.Log.Strings.{Taken, add_counting, destroy, add_all_counting, life}
use mediawiki_php_excimer.Log.Strings.Frames.{one_some, uses, held, Drops, delref_frames-Drops}
use mediawiki_php_excimer.Log.Strings.Record.{Balanced, find_or_add_frame-Counts}

-- The line numbers of the samples fit in 32 bits.
abbrev pub AllLines : List Taken → Type 0
AllLines [] = Unit
AllLines (t ∷ samples) = Lines t.stack × AllLines samples

-- The calls of the samples.
unfoldable pub calls : List Taken → ℕ
calls [] = 0
calls (t ∷ samples) = length t.stack + calls samples

module _ ⦃Z : HashApi⦄ ⦃S : StringApi⦄ where
  -- The samples are recorded, with a balanced heap and at most `n` new frames.
  pub record Kept (log : Log Z) (n : ℕ) (h : S.Heap) (outcome : Run (Log Z × S.Heap)) : Type 0 where
    pub log' : Log Z
    pub heap : S.Heap
    pub succeeds : outcome ≡ ok (log', heap)
    pub valid : IsValid log'
    pub growth : length log'.frames ≤ length log.frames + n
    pub balanced : Balanced log h log' heap

  -- The calls of excimer_log_add that excimer_log_add with counts stands for.
  add_result :
      (log : Log Z) (t : Taken) (r : ℕ × Log Z)
      → find_or_add_frame log t.stack 0 ≡ ok r
      → add log t.stack t.event_count t.timestamp
        ≡ ok (push_entry r.1 r.0 t.event_count t.timestamp)
  unfolding add
  add_result log t r e = rw e

  pub add_counting-Kept :
      (log : Log Z) (t : Taken) (h : S.Heap)
      → IsValid log
      → Lines t.stack
      → length log.frames + length t.stack ≤ 2 ^ 32
      → Kept log (length t.stack) h (add_counting log t h)
  unfolding add_counting
  add_counting-Kept log t h v lines room =
      let s = find_or_add_frame-Succeeds log t.stack 0 v lines room in
      let r = s.result in
      let c = find_or_add_frame-Counts log t.stack 0 h r s.succeeds in
      let (log', e, added) = add-Added log t.stack t.event_count t.timestamp v lines room in
      let same : log' ≡ push_entry r.1 r.0 t.event_count t.timestamp =
        cc (e, add_result log t r s.succeeds) in
      record {
        log' = push_entry r.1 r.0 t.event_count t.timestamp;
        heap = c.heap;
        succeeds = rw c.succeeds;
        valid = rw same at added.valid;
        growth = unfold push_entry in s.growth;
        balanced = unfold push_entry in c.balanced;
      }

  pub add_all_counting-Kept :
      (samples : List Taken) (log : Log Z) (h : S.Heap)
      → IsValid log
      → AllLines samples
      → length log.frames + calls samples ≤ 2 ^ 32
      → Kept log (calls samples) h (add_all_counting samples log h)
  unfolding add_all_counting calls
  add_all_counting-Kept [] log h v lines room = record {
    log' = log;
    heap = h;
    succeeds = refl;
    valid = v;
    growth = omega arith;
    balanced = λ t. refl;
  }
  add_all_counting-Kept (t ∷ samples) log h v lines room =
      let one = add_counting-Kept log t h v lines.0 (omega arith) in
      let before = one.growth in
      let rest = add_all_counting-Kept samples one.log' one.heap one.valid lines.1 (omega arith) in
      let after = rest.growth in
      rw one.succeeds (record {
        log' = rest.log';
        heap = rest.heap;
        succeeds = rest.succeeds;
        valid = rest.valid;
        growth = omega arith;
        balanced = λ t. omega (arith, one.balanced t, rest.balanced t);
      })

  held-init : (log : Log Z) (t : Bytes) → held (init log).frames t ≡ 0
  unfolding init held uses one_some
  held-init log t = refl

  -- Where the heap counts at least the references that the frames of a log hold, destroying the log
  -- succeeds and drops these references and no others.
  pub destroy-Drops :
      (log : Log Z) (h : S.Heap)
      → ((t : Bytes) → held log.frames t ≤ S.refcount h t)
      → Drops (held log.frames) h (destroy log h)
  unfolding destroy
  destroy-Drops log h le = delref_frames-Drops log.frames h le

  -- A log that is initialised, takes any samples and is destroyed succeeds in all of it, if the calls
  -- and their lines fit in 32 bits, and leaves the reference count of every string as it was.
  pub life-restores :
      (log : Log Z) (samples : List Taken) (h : S.Heap)
      → AllLines samples
      → 1 + calls samples ≤ 2 ^ 32
      → (h' : S.Heap) × (life log samples h ≡ ok h')
        × ((t : Bytes) → S.refcount h' t ≡ S.refcount h t)
  unfolding life init
  life-restores log samples h lines room =
      let k = add_all_counting-Kept samples (init log) h (init-IsValid log) lines room in
      let d = destroy-Drops k.log' k.heap (λ t. omega (arith, k.balanced t, held-init log t)) in
      (
        d.heap,
        rw (k.succeeds, d.succeeds),
        λ t. omega (arith, k.balanced t, d.count t, held-init log t),
      )
