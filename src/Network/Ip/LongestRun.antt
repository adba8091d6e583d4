-- ===== src/Network/Ip/LongestRun.antt =====
-- ip.cpp: the run of zeros that `ip::v6::to_string` leaves out is a longest one.
use cppio.Common.{
  ℕ, zero, suc, ◌+◌, ◌-◌, ◌<◌, ◌≤◌, ◌≡◌, refl, sym, ap, ◌∙◌, subst, arith, List, [], ◌∷◌, length,
  drop, length-drop, ltb, ◌==◌, Bool-cases, inl, inr, ◌⊎◌, false, drop_nil, drop-drop,
}
use cppio.Network.Ip.V6.{zeros, longest}

zeros-drop : (ws : List ℕ) (j : ℕ) → j ≤ zeros ws → zeros (drop j ws) ≡ zeros ws - j
unfolding zeros
zeros-drop [] zero h = refl
zeros-drop [] (suc j) h = omega arith
zeros-drop (w ∷ ws) zero h = omega arith
zeros-drop (w ∷ ws) (suc j) h = elim (Bool-cases (w == 0)) [
  | inl is_zero ↦ ground (arith, zeros-drop ws j, is_zero, h)
  | inr other ↦ absurd (ground (arith, other, h))
]

-- The run `r` of the words `ws`, which begin at index `i`: it is `best`, or it stands in the words; none in
-- the words is longer.
abbrev pub IsLongest : ℕ → List ℕ → ℕ × ℕ → ℕ × ℕ → Type 0
IsLongest i ws best r =
    ((r ≡ best) ⊎ ((k : ℕ) × (r.1 ≡ i + k) × (zeros (drop k ws) ≡ r.0)))
    × (best.0 ≤ r.0)
    × ((k : ℕ) → zeros (drop k ws) ≤ r.0)

module _ (i : ℕ) (w : ℕ) (ws : List ℕ) (best r : ℕ × ℕ) where
  after_other : w == 0 ≡ false → IsLongest (suc i) ws best r → IsLongest i (w ∷ ws) best r
  unfolding zeros
  after_other other q = (
    elim q.0 [ inl same ↦ inl same | inr (k, at, run) ↦ inr (suc k, omega (arith, at), run) ],
    q.1,
    bound,
  )
    where
      bound : (k : ℕ) → zeros (drop k (w ∷ ws)) ≤ r.0
      bound zero = ground (arith, other)
      bound (suc k) = q.2 k

  module _ (n : ℕ) (is_run : zeros (w ∷ ws) ≡ n) where
    later :
        (k : ℕ)
        → r.1 ≡ i + n + 1 + k
        → zeros (drop k (drop (n + 1) (w ∷ ws))) ≡ r.0
        → (k : ℕ) × (r.1 ≡ i + k) × (zeros (drop k (w ∷ ws)) ≡ r.0)
    later k at run = (
      n + 1 + k,
      omega (arith, at),
      ap zeros (sym (drop-drop (n + 1) k (n + 1 + k) (w ∷ ws) refl)) ∙ run,
    )

    bounded :
        n ≤ r.0
        → ((k : ℕ) → zeros (drop k (drop (n + 1) (w ∷ ws))) ≤ r.0)
        → (k : ℕ) → zeros (drop k (w ∷ ws)) ≤ r.0
    bounded long q k = elim (Bool-cases (ltb n k)) [
      | inl behind ↦
          let e : k ≡ n + 1 + (k - (n + 1)) = ground (arith, behind) in
          subst (λ xs. zeros xs ≤ r.0) (drop-drop (n + 1) (k - (n + 1)) k (w ∷ ws) e)
            (q (k - (n + 1)))
      | inr within ↦
          let le : k ≤ zeros (w ∷ ws) = ground (arith, within, is_run) in
          omega (arith, zeros-drop (w ∷ ws) k le, is_run, long)
    ]

    after_better :
        best.0 < n
        → IsLongest (i + n + 1) (drop (n + 1) (w ∷ ws)) (n, i) r
        → IsLongest i (w ∷ ws) best r
    after_better lt q = (
      elim q.0 [
        | inl same ↦
            inr (
              0,
              (let e = ap (λ p. p.1) same in omega (arith, e)),
              is_run ∙ sym (ap (λ p. p.0) same),
            )
        | inr (k, at, run) ↦ inr (later k at run)
      ],
      omega (arith, lt, q.1),
      bounded q.1 q.2,
    )

    after_kept :
        n ≤ best.0
        → IsLongest (i + n + 1) (drop (n + 1) (w ∷ ws)) best r
        → IsLongest i (w ∷ ws) best r
    after_kept le q = (
      elim q.0 [ inl same ↦ inl same | inr (k, at, run) ↦ inr (later k at run) ],
      q.1,
      bounded (omega (arith, le, q.1)) q.2,
    )

no_words : (i : ℕ) (best : ℕ × ℕ) → IsLongest i [] best best
no_words i best = (inl refl, omega arith, bound)
  where
    bound : (k : ℕ) → zeros (drop {A = ℕ} k []) ≤ best.0
    bound k = rw (drop_nil k) (unfold zeros in omega arith)

longest-IsLongest :
    (fuel i : ℕ) (ws : List ℕ) (best : ℕ × ℕ)
    → length ws ≤ fuel
    → IsLongest i ws best (longest fuel i ws best)
unfolding longest
longest-IsLongest zero i [] best h = no_words i best
longest-IsLongest zero i (w ∷ ws) best h = absurd (omega (arith, h))
longest-IsLongest (suc fuel) i [] best h = no_words i best
longest-IsLongest (suc fuel) i (w ∷ ws) best h =
    let n = zeros (w ∷ ws) in
    let left : length (drop (n + 1) (w ∷ ws)) ≤ fuel =
      omega (arith, length-drop (n + 1) (w ∷ ws), h) in
    elim (Bool-cases (w == 0)) [
      | inl is_zero ↦ elim (Bool-cases (ltb best.0 n)) [
        | inl better ↦
            rw (is_zero, better)
              (after_better i w ws best _ n refl (ground (arith, better))
                (longest-IsLongest fuel (i + n + 1) (drop (n + 1) (w ∷ ws)) (n, i) left))
        | inr kept ↦
            rw (is_zero, kept)
              (after_kept i w ws best _ n refl (ground (arith, kept))
                (longest-IsLongest fuel (i + n + 1) (drop (n + 1) (w ∷ ws)) best left))
      ]
      | inr other ↦ rw other (
          after_other i w ws best _ other
            (longest-IsLongest fuel (suc i) ws best (omega (arith, h))))
    ]

-- The run that `ip::v6::to_string` leaves out: it is a run of zeros of the address, no run of zeros at any index
-- is longer, and where there is none its length is zero.
pub longest_run : (ws : List ℕ) → length ws ≤ 8 → IsLongest 0 ws (0, 0) (longest 8 0 ws (0, 0))
longest_run ws h = longest-IsLongest 8 0 ws (0, 0) h
