-- ===== src/Log/Depth.antt =====
-- Which part of the VM stack find_or_add_frame of excimer_log.c records under a depth limit.
use mathlib.Core.List.{append_assoc}
use native.Mathlib.Decide.{dec_lt}
use mediawiki_php_excimer.Prelude.{
  ℕ, zero, suc, ◌+◌, ◌-◌, ◌<◌, ◌≤◌, ◌≡◌, refl, none, some, List, [], ◌∷◌, ◌++◌, arith, length, take,
  true, false, ltb, ap, ◌∙◌, if◌then◌else◌,
}
use mediawiki_php_excimer.Prelude.Int.{ℤ, pos, negsuc}
use mediawiki_php_excimer.Bytes.{Bytes}
use mediawiki_php_excimer.Log.Sample.{Call, internal, user, is_too_deep}

-- What a reader sees of a frame: its place in the code, or that the stack was cut.
pub data Place : Type 0 where
  at : Bytes → ℕ → Place
  truncated : Place

-- Only user code is shown.
abbrev pub shown : Call → List Place
shown c = elim c.func [
  | none ↦ []
  | some internal ↦ []
  | some (user f) ↦ at f.filename c.lineno ∷ []
]

abbrev pub all_shown : List Call → List Place
all_shown [] = []
all_shown (c ∷ stack) = shown c ++ all_shown stack

abbrev pub cut : ℕ → List Call → List Place
cut n stack = if ltb n (length stack) then truncated ∷ [] else []

-- The innermost `n` calls, and a mark if there were more.
abbrev pub innermost : ℕ → List Call → List Place
innermost n stack = all_shown (take n stack) ++ cut n stack

-- What a depth limit lets through: 0 is no limit, and a limit m keeps m + 1 calls.
abbrev pub recorded : ℤ → List Call → List Place
recorded (pos zero) stack = all_shown stack
recorded (pos (suc m)) stack = innermost (suc (suc m)) stack
recorded (negsuc m) stack = innermost 1 stack

-- The same for the part of the stack at `depth` and further out.
pub recorded_from : ℤ → ℕ → List Call → List Place
recorded_from (pos zero) depth stack = all_shown stack
recorded_from (pos (suc m)) depth stack = innermost (suc (suc m - depth)) stack
recorded_from (negsuc m) depth stack = innermost 1 stack

-- What is recorded of the callers of the call at `depth`.
unfoldable pub callers : ℤ → ℕ → List Call → List Place
callers max_depth depth [] = []
callers max_depth depth (call ∷ rest) =
    if is_too_deep max_depth depth
    then truncated ∷ []
    else recorded_from max_depth (depth + 1) (call ∷ rest)

cut-cons : (k : ℕ) (call : Call) (rest : List Call) → cut (suc k) (call ∷ rest) ≡ cut k rest
cut-cons k call rest = ground arith

innermost-cons :
    (k : ℕ) (call : Call) (rest : List Call)
    → innermost (suc k) (call ∷ rest) ≡ shown call ++ innermost k rest
innermost-cons k call rest =
    append_assoc (shown call) (all_shown (take k rest)) (cut (suc k) (call ∷ rest))
    ∙ ap (λ end. shown call ++ (all_shown (take k rest) ++ end)) (cut-cons k call rest)

innermost-nil : (k : ℕ) → innermost k [] ≡ []
innermost-nil zero = refl
innermost-nil (suc k) = ground arith

innermost_zero : (call : Call) (rest : List Call) → innermost 0 (call ∷ rest) ≡ truncated ∷ []
innermost_zero call rest = ground arith

module _ (m depth : ℕ) where
  shallow : depth < suc m → is_too_deep (pos (suc m)) depth ≡ false
  unfolding is_too_deep
  shallow h = ground arith

  deep : suc m ≤ depth → is_too_deep (pos (suc m)) depth ≡ true
  unfolding is_too_deep
  deep h = ground arith

  negative_deep : is_too_deep (negsuc m) depth ≡ true
  unfolding is_too_deep
  negative_deep = ground arith

no_limit : (depth : ℕ) → is_too_deep (pos zero) depth ≡ false
unfolding is_too_deep
no_limit depth = refl

innermost-eq-callers :
    (m depth : ℕ) (rest : List Call)
    → innermost (suc m - depth) rest ≡ callers (pos (suc m)) depth rest
unfolding recorded_from callers
innermost-eq-callers m depth [] = innermost-nil (suc m - depth)
innermost-eq-callers m depth (c ∷ rest) = elim (dec_lt depth (suc m)) [
  | yes h ↦
      let e : suc m - depth ≡ suc (suc m - (depth + 1)) = omega arith in
      rw (shallow m depth h) (ap (λ (k : ℕ). innermost k (c ∷ rest)) e)
  | no h ↦
      let e : suc m - depth ≡ 0 = omega arith in
      rw (deep m depth (omega arith))
        (ap (λ (k : ℕ). innermost k (c ∷ rest)) e ∙ innermost_zero c rest)
]

pub recorded_from-cons :
    (max_depth : ℤ) (depth : ℕ) (call : Call) (rest : List Call)
    → recorded_from max_depth depth (call ∷ rest) ≡ shown call ++ callers max_depth depth rest
unfolding recorded_from callers
recorded_from-cons (pos zero) depth call [] = refl
recorded_from-cons (pos zero) depth call (c ∷ rest) = rw no_limit
recorded_from-cons (pos (suc m)) depth call rest =
    innermost-cons (suc m - depth) call rest
    ∙ ap (λ end. shown call ++ end) (innermost-eq-callers m depth rest)
recorded_from-cons (negsuc m) depth call [] =
    innermost-cons 0 call [] ∙ ap (λ end. shown call ++ end) (innermost-nil 0)
recorded_from-cons (negsuc m) depth call (c ∷ rest) =
    innermost-cons 0 call (c ∷ rest)
    ∙ ap (λ end. shown call ++ end) (rw negative_deep (innermost_zero c rest))

pub recorded_from-nil : (max_depth : ℤ) (depth : ℕ) → recorded_from max_depth depth [] ≡ []
unfolding recorded_from
recorded_from-nil (pos zero) depth = refl
recorded_from-nil (pos (suc m)) depth = innermost-nil (suc (suc m - depth))
recorded_from-nil (negsuc m) depth = innermost-nil 1

pub recorded_from_zero :
    (max_depth : ℤ) (stack : List Call) → recorded_from max_depth 0 stack ≡ recorded max_depth stack
unfolding recorded_from
recorded_from_zero (pos zero) stack = refl
recorded_from_zero (pos (suc m)) stack =
    let e : suc m - 0 ≡ suc m = omega arith in ap (λ (k : ℕ). innermost (suc k) stack) e
recorded_from_zero (negsuc m) stack = refl
