-- ===== src/Runtime/Task/Frames/Linked.antt =====
-- basic_task.cpp, task.hpp: the pointers between the coroutines of a task, and the chain that they stand for.

use cppio.Common.{ℕ, suc, false, none, some, List, [], ◌∷◌, refl, length, ◌≡◌, arith, ◌+◌, ap, ◌∙◌}
use cppio.Runtime.Sets.{contains, update}
use cppio.Runtime.Task.Frames.{Frames, await_suspend, final_suspend, clear_inner, descend}

-- No coroutine is in the chain twice.
abbrev pub IsUnique : List ℕ → Type 0
IsUnique [] = Unit
IsUnique (x ∷ xs) = (contains xs x ≡ false) × IsUnique xs

-- Each coroutine of the chain is linked with the next, which awaits it, the last is awaited by none, and none has
-- returned.
abbrev pub IsLinked : Frames → List ℕ → Type 0
IsLinked f [] = Unit
IsLinked f (x ∷ []) = (f.finished x ≡ false) × (f.outer x ≡ none)
IsLinked f (x ∷ y ∷ xs) =
    (f.finished x ≡ false) × (f.outer x ≡ some y) × (f.inner y ≡ some x) × IsLinked f (y ∷ xs)

-- The first of a chain awaits no other.
abbrev pub IsInnermost : Frames → List ℕ → Type 0
IsInnermost f [] = Unit
IsInnermost f (x ∷ xs) = f.inner x ≡ none

-- The pointers stand for the chain, the innermost coroutine first.
abbrev pub Represents : Frames → List ℕ → Type 0
Represents f chain = IsUnique chain × IsLinked f chain × IsInnermost f chain

-- The coroutine of the task itself, the last of the chain.
abbrev pub base : ℕ → List ℕ → ℕ
base x [] = x
base x (y ∷ xs) = base y xs

descend_step :
    (more x y : ℕ) (f : Frames) → f.inner y ≡ some x → descend (suc more) f y ≡ descend more f x
unfolding descend
descend_step more x y f e = rw (descend, e) refl

descend_stop : (more x : ℕ) (f : Frames) → f.inner x ≡ none → descend (suc more) f x ≡ x
unfolding descend
descend_stop more x f e = rw (descend, e) refl

descend-base :
    (more x : ℕ) (xs : List ℕ) (f : Frames)
    → IsLinked f (x ∷ xs)
    → descend (length xs + more) f (base x xs) ≡ descend more f x
descend-base more x [] f h = ap (λ n. descend n f x) (no_fuel more)
  where
    no_fuel : (m : ℕ) → 0 + m ≡ m
    no_fuel m = omega arith
descend-base more x (y ∷ xs) f h =
    ap (λ n. descend n f (base y xs)) (same_fuel (length xs) more)
    ∙ descend-base (suc more) y xs f h.3
    ∙ descend_step more x y f h.2
  where
    same_fuel : (n m : ℕ) → suc n + m ≡ n + suc m
    same_fuel n m = omega arith

pub descend_innermost :
    (x : ℕ) (xs : List ℕ) (f : Frames)
    → IsLinked f (x ∷ xs)
    → f.inner x ≡ none
    → descend (length (x ∷ xs)) f (base x xs) ≡ x
descend_innermost x xs f h e =
    ap (λ n. descend n f (base x xs)) (fuel (length xs))
    ∙ descend-base 1 x xs f h
    ∙ descend_stop 0 x f e
  where
    fuel : (n : ℕ) → suc n ≡ n + 1
    fuel n = omega arith

-- The innermost coroutine has returned, and the next is the innermost.
returned-IsLinked :
    (a b x : ℕ) (xs : List ℕ) (f : Frames)
    → contains (x ∷ xs) a ≡ false
    → contains xs b ≡ false
    → IsLinked f (x ∷ xs)
    → IsLinked (clear_inner b (final_suspend a f)) (x ∷ xs)
unfolding contains clear_inner final_suspend update
returned-IsLinked a b x [] f out apart h = (ground (arith, out, h), h.1)
returned-IsLinked a b x (y ∷ xs) f out apart h =
    let rest : contains (y ∷ xs) a ≡ false = ground (arith, out) in
    let more : contains xs b ≡ false = ground (arith, apart) in
    (
      ground (arith, out, h.0),
      h.1,
      ground (arith, apart, h.2),
      returned-IsLinked a b y xs f rest more h.3,
    )

-- The innermost coroutine awaits another.
called-IsLinked :
    (a i x : ℕ) (xs : List ℕ) (f : Frames)
    → contains (x ∷ xs) i ≡ false
    → contains xs a ≡ false
    → IsLinked f (x ∷ xs)
    → IsLinked (await_suspend a i f) (x ∷ xs)
unfolding contains await_suspend update
called-IsLinked a i x [] f out apart h = (h.0, ground (arith, out, h.1))
called-IsLinked a i x (y ∷ xs) f out apart h =
    let rest : contains (y ∷ xs) i ≡ false = ground (arith, out) in
    let more : contains xs a ≡ false = ground (arith, apart) in
    (
      h.0,
      ground (arith, out, h.1),
      ground (arith, apart, h.2),
      called-IsLinked a i y xs f rest more h.3,
    )

-- The rest of the chain, behind the return of its innermost coroutine.
pub returned-Represents :
    (a b : ℕ) (xs : List ℕ) (f : Frames)
    → Represents f (a ∷ b ∷ xs)
    → Represents (clear_inner b (final_suspend a f)) (b ∷ xs)
returned-Represents a b xs f (unique, linked, innermost) = (
  unique.1,
  returned-IsLinked a b b xs f unique.0 unique.1.0 linked.3,
  (unfold clear_inner update in ground arith),
)

-- A coroutine that is new to the task: it is not in the chain, has not returned and awaits none.
abbrev pub IsNew : ℕ → List ℕ → Frames → Type 0
IsNew i chain f = (contains chain i ≡ false) × (f.finished i ≡ false) × (f.inner i ≡ none)

pub called-Represents :
    (a i : ℕ) (xs : List ℕ) (f : Frames)
    → IsNew i (a ∷ xs) f
    → Represents f (a ∷ xs)
    → Represents (await_suspend a i f) (i ∷ a ∷ xs)
unfolding await_suspend update contains
called-Represents a i xs f (out, unfinished, none_inner) (unique, linked, innermost) = (
  (out, unique),
  (unfinished, ground arith, ground arith, called-IsLinked a i a xs f out unique.0 linked),
  ground (arith, out, none_inner),
)
