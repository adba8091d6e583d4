-- ===== src/Runtime/Timer.antt =====
-- cppio/impl/timer_pool.hpp and timer_pool.cpp: the timers. The set orders its entries by their
-- deadline alone, so it is a list with strictly rising deadlines, in nanoseconds; each method holds the
-- lock from its first access to its last, and is one step here. The clock's reading is an argument.
pub mod Due
pub mod Collision
use cppio.Common.{ℕ, ◌+◌, ◌-◌, Bool, false, ◌||◌, List, [], ◌∷◌, ltb, leb, ◌==◌, if◌then◌else◌}

-- An entry: `when`, and the task to wake.
abbrev pub Pool : Type 0
Pool = List (ℕ × ℕ)

-- `std::set::insert` under `delay_for::operator<`: of two entries with one deadline the set keeps the
-- first.
unfoldable pub insert : ℕ → ℕ → Pool → Pool
insert when task [] = (when, task) ∷ []
insert when task ((w, t) ∷ pool) =
    if ltb when w
    then (when, task) ∷ (w, t) ∷ pool
    else if ltb w when
    then (w, t) ∷ insert when task pool
    else (w, t) ∷ pool

unfoldable pub add : ℕ → ℕ → ℕ → Pool → Pool
unfolding insert
add now delay task pool = insert (now + delay) task pool

-- What `get_delay` leaves: the tasks that it wakes, first to last, the timers that stay, and the time
-- to wait for the first of these, or zero.
pub record Delay : Type 0 where
  pub woken : List ℕ
  pub left : Pool
  pub wait_time : ℕ

unfoldable pub get_delay : ℕ → Pool → Delay
get_delay now [] = record { woken = []; left = []; wait_time = 0 }
get_delay now ((w, t) ∷ pool) =
    let rest = get_delay now pool in
    if leb w now
    then record rest { woken = t ∷ rest.woken }
    else record { woken = []; left = (w, t) ∷ pool; wait_time = w - now }

-- Whether a timer will wake the task.
unfoldable pub has : Pool → ℕ → Bool
has [] a = false
has ((w, t) ∷ pool) a = t == a || has pool a

-- `process` ignores the time to wait.
unfoldable pub process : ℕ → Pool → List ℕ × Pool
process now pool = let d = get_delay now pool in (d.woken, d.left)
