-- ===== src/Runtime/Timer/Due.antt =====
-- timer_pool.cpp: the order of the timers, and which of them `get_delay` takes.
use cppio.Common.{
  ℕ, ◌+◌, ◌≤◌, ◌<◌, ◌≡◌, refl, ap, arith, [], ◌∷◌, ◌++◌, map, ltb, leb, All, Bool-cases, inl, inr,
  ◌⊎◌,
}
use cppio.Runtime.Timer.{Pool, insert, add, Delay, get_delay}

-- Deadlines rise strictly, as in the set.
abbrev pub IsOrdered : Pool → Type 0
IsOrdered [] = Unit
IsOrdered ((w, t) ∷ pool) = All (λ e. w < e.0) pool × IsOrdered pool

abbrev pub Due : ℕ → Pool → Type 0
Due now = All (λ e. e.0 ≤ now)

insert-All :
    (P : ℕ × ℕ → Type 0) (when task : ℕ) (pool : Pool)
    → P (when, task)
    → All P pool
    → All P (insert when task pool)
unfolding insert
insert-All P when task [] p h = (p, tt)
insert-All P when task ((w, t) ∷ pool) p h = elim (Bool-cases (ltb when w)) [
  | inl before ↦ rw before (p, h)
  | inr not_before ↦ rw not_before (elim (Bool-cases (ltb w when)) [
    | inl after ↦ rw after (h.0, insert-All P when task pool p h.1)
    | inr same ↦ rw same h
  ])
]

All-lt_trans : (a b : ℕ) (pool : Pool) → a < b → All (λ e. b < e.0) pool → All (λ e. a < e.0) pool
All-lt_trans a b [] h k = tt
All-lt_trans a b (e ∷ pool) h k = (omega (arith, k.0), All-lt_trans a b pool h k.1)

insert-IsOrdered :
    (when task : ℕ) (pool : Pool) → IsOrdered pool → IsOrdered (insert when task pool)
unfolding insert
insert-IsOrdered when task [] h = (tt, tt)
insert-IsOrdered when task ((w, t) ∷ pool) h = elim (Bool-cases (ltb when w)) [
  | inl before ↦
      let lt : when < w = ground arith in rw before ((lt, All-lt_trans when w pool lt h.0), h)
  | inr not_before ↦ rw not_before (elim (Bool-cases (ltb w when)) [
    | inl after ↦ rw after (
      insert-All (λ e. w < e.0) when task pool (ground arith) h.0,
      insert-IsOrdered when task pool h.1,
    )
    | inr same ↦ rw same h
  ])
]

-- Starting a timer keeps the deadlines strictly rising.
pub add-IsOrdered :
    (now delay task : ℕ) (pool : Pool) → IsOrdered pool → IsOrdered (add now delay task pool)
unfolding add
add-IsOrdered now delay task pool h = insert-IsOrdered (now + delay) task pool h

-- What `get_delay` promises: it takes a prefix of the timers off and wakes their tasks in order; all of
-- these are due, and none that stays is. The time to wait is zero if no timer stays, and else the time
-- from now to the first deadline, which is not zero.
pub record TakesDue (now : ℕ) (pool : Pool) (d : Delay) : Type 0 where
  pub due : Pool
  pub splits : pool ≡ due ++ d.left
  pub all_due : Due now due
  pub wakes : d.woken ≡ map (λ e. e.1) due
  pub none_left_due : All (λ e. now < e.0) d.left
  pub waits : ((d.left ≡ []) × (d.wait_time ≡ 0)) ⊎ (0 < d.wait_time)
  pub waits_for_first : (w t : ℕ) (rest : Pool) → d.left ≡ (w, t) ∷ rest → now + d.wait_time ≡ w

-- In an ordered pool `get_delay` takes exactly the timers that are due.
pub get_delay-TakesDue :
    (now : ℕ) (pool : Pool) → IsOrdered pool → TakesDue now pool (get_delay now pool)
unfolding get_delay
get_delay-TakesDue now [] h = record {
  due = [];
  splits = refl;
  all_due = tt;
  wakes = refl;
  none_left_due = tt;
  waits = inl (refl, refl);
  waits_for_first = λ w t rest e. absurd (cc e);
}
get_delay-TakesDue now ((w, t) ∷ pool) h = elim (Bool-cases (leb w now)) [
  | inl is_due ↦ rw is_due (
      let k = get_delay-TakesDue now pool h.1 in
      record {
        due = (w, t) ∷ k.due;
        splits = ap (◌∷◌ (w, t)) k.splits;
        all_due = (ground arith, k.all_due);
        wakes = ap (◌∷◌ t) k.wakes;
        none_left_due = k.none_left_due;
        waits = k.waits;
        waits_for_first = k.waits_for_first;
      })
  | inr later ↦ rw later (
      let lt : now < w = ground arith in
      record {
        due = [];
        splits = refl;
        all_due = tt;
        wakes = refl;
        none_left_due = (lt, All-lt_trans now w pool lt h.0);
        waits = inr (omega arith);
        waits_for_first = λ w' t' rest e. ground arith;
      })
]
