-- ===== src/Runtime/Timer/Collision.antt =====
-- timer_pool.cpp: which tasks will still be woken after `add` and after `get_delay`.
use cppio.Common.{ℕ, ◌+◌, ◌<◌, ◌≡◌, ◌≢◌, refl, arith, ◌||◌, [], ◌∷◌, ◌++◌, ◌==◌, All}
use cppio.Runtime.Sets.{contains}
use cppio.Runtime.Timer.{Pool, insert, add, get_delay, has}
use cppio.Runtime.Timer.Due.{IsOrdered}

-- No timer has the deadline.
abbrev pub IsFree : ℕ → Pool → Type 0
IsFree when = All (λ e. e.0 ≢ when)

insert-has :
    (when task : ℕ) (pool : Pool) (a : ℕ)
    → IsFree when pool
    → has (insert when task pool) a ≡ (has pool a || task == a)
unfolding insert has
insert-has when task [] a h = ground arith
insert-has when task ((w, t) ∷ pool) a h = ground (arith, insert-has when task pool a h.1, h.0)

-- A timer at a deadline that no other has is kept with all the others: exactly the new task joins those
-- that will be woken.
pub has-add :
    (now delay task : ℕ) (pool : Pool) (a : ℕ)
    → IsFree (now + delay) pool
    → has (add now delay task pool) a ≡ (has pool a || task == a)
unfolding add
has-add now delay task pool a h = insert-has (now + delay) task pool a h

All-middle :
    (w t when : ℕ) (before after : Pool)
    → All (λ e. w < e.0) (before ++ (when, t) ∷ after)
    → w < when
All-middle w t when [] after h = h.0
All-middle w t when (e ∷ before) after h = All-middle w t when before after h.1

insert_taken :
    (when task t : ℕ) (before after : Pool)
    → IsOrdered (before ++ (when, t) ∷ after)
    → insert when task (before ++ (when, t) ∷ after) ≡ before ++ (when, t) ∷ after
unfolding insert
insert_taken when task t [] after h = ground arith
insert_taken when task t ((w, u) ∷ before) after h =
    ground (arith, insert_taken when task t before after h.1, All-middle w t when before after h.0)

-- A timer whose deadline is taken is dropped: the pool is unchanged, and the new task is in it only if
-- it was before.
pub add_taken :
    (now delay task t : ℕ) (before after : Pool)
    → IsOrdered (before ++ (now + delay, t) ∷ after)
    → add now delay task (before ++ (now + delay, t) ∷ after) ≡ before ++ (now + delay, t) ∷ after
unfolding add
add_taken now delay task t before after h = insert_taken (now + delay) task t before after h

-- `get_delay` loses no timer: each task that had one is woken or still has one, and no other is.
pub get_delay-has :
    (now : ℕ) (pool : Pool) (a : ℕ)
    → (contains (get_delay now pool).woken a || has (get_delay now pool).left a) ≡ has pool a
unfolding get_delay has contains
get_delay-has now [] a = refl
get_delay-has now ((w, t) ∷ pool) a = ground (arith, get_delay-has now pool a)
