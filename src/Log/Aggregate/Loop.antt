-- ===== src/Log/Aggregate/Loop.antt =====
-- The loop over one backtrace, against tests on the names of its frames.
use mediawiki_php_excimer.Prelude.{
  ℕ, zero, suc, ◌+◌, ◌%◌, ◌^◌, ◌<◌, ◌≡◌, refl, ap, ◌∙◌, inl, inr, Bool, true, false, ◌&&◌, ◌||◌,
  not, List, [], ◌∷◌, arith, length, if◌then◌else◌, Bool-cases,
}
use mediawiki_php_excimer.Bytes.{Bytes, bytes_eq, bytes_eq_iff}
use mediawiki_php_excimer.Run.{ok}
use mediawiki_php_excimer.Zend.{HashApi, str}
use mediawiki_php_excimer.Log.{Frame, Entry, Log}
use mediawiki_php_excimer.Log.Walk.{Visits, get_frame-some, ne_zero}
use mediawiki_php_excimer.Log.Trace.{Zval}
use mediawiki_php_excimer.Log.Aggregate.{Aggregate, aggr_name, aggr_loop}
use mediawiki_php_excimer.Log.Aggregate.Counts.{bump, mark, Counts, Seen, Tallies, Has-transport}
use mediawiki_php_excimer.Log.Aggregate.Pass.{count_frame-Tallies}

-- The names of the frames.
abbrev pub Named : List Frame → List Bytes → Type 0
Named [] [] = Unit
Named [] (n ∷ ns) = ⊥
Named (f ∷ fs) [] = ⊥
Named (f ∷ fs) (n ∷ ns) = (aggr_name f ≡ ok n) × Named fs ns

-- A backtrace by its names, the innermost first, and how many events it stands for.
abbrev pub NamedTrace : Type 0
NamedTrace = List Bytes × ℕ

-- The backtraces of the entries.
abbrev pub Traced : List Frame → List Entry → List NamedTrace → Type 0
Traced frames [] [] = Unit
Traced frames [] (t ∷ ts) = ⊥
Traced frames (e ∷ es) [] = ⊥
Traced frames (e ∷ es) ((ns, count) ∷ ts) =
    ((fs : List Frame) × Visits frames e.frame_index fs × Named fs ns)
    × (e.event_count ≡ count)
    × Traced frames es ts

unfoldable pub is_on_top : Bytes → List Bytes → Bool
is_on_top n [] = false
is_on_top n (m ∷ ms) = bytes_eq m n

unfoldable pub is_among : Bytes → List Bytes → Bool
is_among n [] = false
is_among n (m ∷ ms) = bytes_eq m n || is_among n ms

-- The events of the backtraces that a test selects.
unfoldable pub events : (List Bytes → Bool) → List NamedTrace → ℕ
events p [] = 0
events p ((ns, count) ∷ ts) = (if p ns then count else 0) + events p ts

-- What the loop over one backtrace makes of the counts.
abbrev loop_self : Bool → ℕ → List Bytes → (Bytes → ℕ) → Bytes → ℕ
loop_self is_top term [] self = self
loop_self is_top term (n ∷ ns) self =
    loop_self false term ns (if is_top then bump n term self else self)

abbrev loop_inclusive : ℕ → List Bytes → (Bytes → Bool) → (Bytes → ℕ) → Bytes → ℕ
loop_inclusive term [] seen inclusive = inclusive
loop_inclusive term (n ∷ ns) seen inclusive =
    loop_inclusive term ns (mark n seen) (if seen n then inclusive else bump n term inclusive)

abbrev loop_seen : List Bytes → (Bytes → Bool) → Bytes → Bool
loop_seen [] seen = seen
loop_seen (n ∷ ns) seen = loop_seen ns (mark n seen)

loop_self-below :
    (term : ℕ) (ns : List Bytes) (self : Bytes → ℕ) → loop_self false term ns self ≡ self
loop_self-below term [] self = refl
loop_self-below term (n ∷ ns) self = loop_self-below term ns self

-- The top name is bumped, once.
loop_self-top :
    (term : ℕ) (ns : List Bytes) (self : Bytes → ℕ) (n : Bytes)
    → loop_self true term ns self n ≡ (if is_on_top n ns then (self n + term) % 2 ^ 64 else self n)
unfolding is_on_top
loop_self-top term [] self n = refl
loop_self-top term (m ∷ ns) self n =
    ap (λ (c : Bytes → ℕ). c n) (loop_self-below term ns (bump m term self))

if-apply :
    (b : Bool) (f g : Bytes → ℕ) (n : Bytes) → (if b then f else g) n ≡ (if b then f n else g n)
if-apply true f g n = refl
if-apply false f g n = refl

-- Each name of the backtrace is bumped once, however often it stands there.
loop_inclusive-once :
    (term : ℕ) (ns : List Bytes) (seen : Bytes → Bool) (inclusive : Bytes → ℕ) (n : Bytes)
    → loop_inclusive term ns seen inclusive n
      ≡ (if not (seen n) && is_among n ns then (inclusive n + term) % 2 ^ 64 else inclusive n)
unfolding is_among
loop_inclusive-once term [] seen inclusive n = ground arith
loop_inclusive-once term (m ∷ ns) seen inclusive n =
    let next : Bytes → ℕ = if seen m then inclusive else bump m term inclusive in
    let ih = loop_inclusive-once term ns (mark m seen) next n in
    let here = if-apply (seen m) inclusive (bump m term inclusive) n in
    elim (Bool-cases (bytes_eq m n)) [
      | inl same ↦
          let equal : seen m ≡ seen n = ap seen ((bytes_eq_iff m n).0 same) in
          ih ∙ ground (arith, here, equal)
      | inr other ↦ ih ∙ ground (arith, here)
    ]

module _ ⦃Z : HashApi⦄ where
  aggr_loop-Tallies :
      (log : Log Z) (fuel i : ℕ) (fs : List Frame) (ns : List Bytes) (is_top : Bool) (term : ℕ)
      (a : Aggregate) (self inclusive : Bytes → ℕ) (seen : Bytes → Bool)
      → i < fuel
      → Visits log.frames i fs
      → Named fs ns
      → Tallies a self inclusive seen
      → (a' : Aggregate) × (aggr_loop fuel log i is_top term a ≡ ok a')
        × Tallies a'
            (loop_self is_top term ns self)
            (loop_inclusive term ns seen inclusive)
            (loop_seen ns seen)
  unfolding aggr_loop
  aggr_loop-Tallies log zero i fs ns is_top term a self inclusive seen h v d t =
      absurd (omega arith)
  aggr_loop-Tallies log (suc fuel) i [] [] is_top term a self inclusive seen h v d t = (a, rw v, t)
  aggr_loop-Tallies log (suc fuel) i [] (n ∷ ns) is_top term a self inclusive seen h v d t =
      absurd d
  aggr_loop-Tallies log (suc fuel) i (f ∷ fs) [] is_top term a self inclusive seen h v d t =
      absurd d
  aggr_loop-Tallies log (suc fuel) i (f ∷ fs) (n ∷ ns) is_top term a self inclusive seen h
        (found, before, rest) (name, names) t =
      let positive : 0 < i = omega arith in
      let (a1, counted, t1) = count_frame-Tallies self inclusive seen f n is_top term a name t in
      let (a2, looped, t2) =
        aggr_loop-Tallies log fuel f.prev_index fs ns false term a1 _ _ (mark n seen) (omega arith)
          rest names t1 in
      (a2, rw (ne_zero i positive, get_frame-some log i f positive found, counted) looped, t2)

  pub Counts-pointwise :
      (result : Z.Table (Z.Table Zval)) (self inclusive self' inclusive' : Bytes → ℕ)
      → ((n : Bytes) → self' n ≡ self n)
      → ((n : Bytes) → inclusive' n ≡ inclusive n)
      → Counts result self inclusive
      → Counts result self' inclusive'
  Counts-pointwise result self inclusive self' inclusive' hs hi c n =
      Has-transport (Z.find result (str n)) _ (self n) (inclusive n) (self' n) (inclusive' n) refl
        (hs n) (hi n) (c n)

  -- The counts after one more backtrace.
  pub aggr_loop-Counts :
      (log : Log Z) (i : ℕ) (fs : List Frame) (ns : List Bytes) (term : ℕ) (a : Aggregate)
      (self inclusive : Bytes → ℕ)
      → i < suc (length log.frames)
      → Visits log.frames i fs
      → Named fs ns
      → Seen a.unique (λ n. false)
      → Counts a.result (λ n. self n % 2 ^ 64) (λ n. inclusive n % 2 ^ 64)
      → (a' : Aggregate) × (aggr_loop (suc (length log.frames)) log i true term a ≡ ok a')
        × Counts a'.result
            (λ n. (self n + (if is_on_top n ns then term else 0)) % 2 ^ 64)
            (λ n. (inclusive n + (if is_among n ns then term else 0)) % 2 ^ 64)
  aggr_loop-Counts log i fs ns term a self inclusive h v d u c =
      let s = λ (n : Bytes). self n % 2 ^ 64 in
      let t = λ (n : Bytes). inclusive n % 2 ^ 64 in
      let (a', looped, tallies) =
        aggr_loop-Tallies log (suc (length log.frames)) i fs ns true term a s t (λ n. false) h v d
          (record { counts = c; names = u }) in
      (
        a',
        looped,
        Counts-pointwise a'.result _ _ _ _ (λ n. ground (arith, loop_self-top term ns s n))
            (λ n. ground (arith, loop_inclusive-once term ns (λ m. false) t n)) tallies.counts,
      )
