-- ===== src/Runtime/Task/Futures.antt =====
-- cppio/future.inl: calls of `get` on the copies of one future, and the frames behind a task that is moved.
use cppio.Common.{
  ℕ, zero, suc, ◌≡◌, refl, ap, Bool, true, false, List, [], ◌∷◌, ◌++◌, if◌then◌else◌, arith,
}
use cppio.Runtime.Sets.{update}
use cppio.Runtime.Task.Promise.{
  Promise, initial, return_value, Got, returns, terminates, take_value, get, wait, get_behind,
}

unfoldable pub is_returned {ℓ} : {U : Type ℓ} → Got U → Bool
is_returned (returns u) = true
is_returned _ = false

-- What the calls of `get` give, on the copies that are named, first to last, up to one that does not return. Each
-- copy has the task or is spent.
unfoldable pub get_all {ℓ} :
    {U : Type ℓ} → U → (U → U) → List ℕ → (ℕ → Bool) → Promise U → List (Got U)
get_all empty left [] copies p = []
get_all empty left (c ∷ calls) copies p =
    let (result, has, after) = get empty left (copies c) p in
    let rest = get_all empty left calls (update copies c has) after in
    if is_returned result then result ∷ rest else result ∷ []

abbrev pub replicate {ℓ} : {A : Type ℓ} → ℕ → A → List A
replicate zero a = []
replicate (suc n) a = a ∷ replicate n a

-- The next copy, if there is one, has the task.
abbrev pub HasTask : List ℕ → (ℕ → Bool) → Type 0
HasTask [] copies = Unit
HasTask (c ∷ calls) copies = copies c ≡ true

-- The process ends at the next copy, if there is one.
abbrev pub ending {ℓ} : {U : Type ℓ} → List ℕ → List (Got U)
ending [] = []
ending (c ∷ calls) = terminates ∷ []

HasTask-update :
    (c : ℕ) (calls : List ℕ) (copies : ℕ → Bool)
    → copies c ≡ false
    → HasTask calls copies
    → HasTask calls (update copies c false)
unfolding update
HasTask-update c [] copies h k = tt
HasTask-update c (d ∷ calls) copies h k = ground (arith, h, k)

module _ {ℓ} {U : Type ℓ} (empty : U) (left : U → U) where
  get_all_spent :
      (n c : ℕ) (calls : List ℕ) (copies : ℕ → Bool) (p : Promise U)
      → copies c ≡ false
      → p.retrieved ≡ true
      → HasTask calls copies
      → get_all empty left (replicate n c ++ calls) copies p
        ≡ replicate n (returns empty) ++ ending calls
  unfolding get_all get wait get_behind is_returned update
  get_all_spent zero c [] copies p h r k = refl
  get_all_spent zero c (d ∷ calls) copies p h r k = rw (k, r) refl
  get_all_spent (suc n) c calls copies p h r k = rw h (
      ap (◌∷◌ (returns empty)) (
        get_all_spent n c calls (update copies c false) p (ground arith) r
          (HasTask-update c calls copies h k)))

-- Once a coroutine has returned a value, the first `get` on a copy of its future returns it, and each further one
-- on the same copy returns the default value; the first `get` on another copy that has the task ends the process,
-- since the promise gives its future away only once.
pub get-return_value {ℓ} :
    {U : Type ℓ} (empty : U) (left : U → U) (v : U) (n c : ℕ) (others : List ℕ) (copies : ℕ → Bool)
    → copies c ≡ true
    → HasTask others (update copies c false)
    → get_all empty left (c ∷ replicate n c ++ others) copies (return_value v initial)
      ≡ returns v ∷ replicate n (returns empty) ++ ending others
unfolding get_all get wait get_behind take_value return_value is_returned update
get-return_value empty left v n c others copies h k = rw h (
    ap (◌∷◌ (returns v))
      (get_all_spent empty left n c others (update copies c false) _ (ground arith) refl k))
