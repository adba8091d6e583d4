-- ===== src/Runtime/Sets.antt =====
-- Sets of tasks and per-task values, as the standard containers of the scheduler use them.
use cppio.Common.{
  ℕ, ◌≡◌, refl, Bool, false, not, ◌&&◌, ◌||◌, List, [], ◌∷◌, ◌++◌, ◌==◌, if◌then◌else◌, arith,
}

unfoldable pub contains : List ℕ → ℕ → Bool
contains [] a = false
contains (x ∷ xs) a = x == a || contains xs a

-- `unordered_set::insert`
unfoldable pub insert : ℕ → List ℕ → List ℕ
insert a xs = if contains xs a then xs else xs ++ a ∷ []

-- `unordered_set::erase`
unfoldable pub erase : ℕ → List ℕ → List ℕ
erase a [] = []
erase a (x ∷ xs) = if x == a then erase a xs else x ∷ erase a xs

unfoldable pub update {ℓ} : {A : Type ℓ} → (ℕ → A) → ℕ → A → ℕ → A
update f a v b = if b == a then v else f b

pub contains-append :
    (xs ys : List ℕ) (a : ℕ) → contains (xs ++ ys) a ≡ (contains xs a || contains ys a)
unfolding contains
contains-append [] ys a = refl
contains-append (x ∷ xs) ys a = ground (arith, contains-append xs ys a)

pub contains-concat :
    (xs : List ℕ) (x a : ℕ) → contains (xs ++ x ∷ []) a ≡ (contains xs a || x == a)
unfolding contains
contains-concat [] x a = ground arith
contains-concat (y ∷ xs) x a = ground (arith, contains-concat xs x a)

pub contains-insert :
    (x : ℕ) (xs : List ℕ) (a : ℕ) → contains (insert x xs) a ≡ (contains xs a || x == a)
unfolding insert
contains-insert x xs a = ground (arith, contains-concat xs x a)

pub contains-erase :
    (x : ℕ) (xs : List ℕ) (a : ℕ) → contains (erase x xs) a ≡ (not (a == x) && contains xs a)
unfolding contains erase
contains-erase x [] a = ground arith
contains-erase x (y ∷ xs) a = ground (arith, contains-erase x xs a)

erase_absent : (x : ℕ) (xs : List ℕ) → contains xs x ≡ false → erase x xs ≡ xs
unfolding erase contains
erase_absent x [] h = refl
erase_absent x (y ∷ xs) h = ground (arith, erase_absent x xs, h)

pub erase_opened : (x : ℕ) (xs : List ℕ) → contains xs x ≡ false → erase x (x ∷ xs) ≡ xs
unfolding erase contains
erase_opened x xs h = ground (arith, erase_absent x xs h)
