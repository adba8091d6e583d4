-- ===== src/Http/Headers/Multimap.antt =====
-- header_map.inl: the multimap. It stays sorted, and `get` sees what `add` has put in, in order.
use cppio.Common.{
  true, false, [], ◌∷◌, ◌++◌, ◌≡◌, refl, ap, subst, arith, All, if◌then◌else◌, Bool-cases, inl, inr,
}
use cppio.Common.Text.{Bytes, bytes_eq, bytes_less}
use cppio.Common.Order.{
  bytes_eq_iff, bytes_less_asymm, bytes_le_trans, bytes_lt_of_lt_le, bytes_less-ne,
}
use cppio.Http.Headers.{HeaderMap, add, get}

-- No key of the map is below `key`.
abbrev pub NotBelow : Bytes → HeaderMap → Type 0
NotBelow key = All (λ e. bytes_less e.0 key ≡ false)

abbrev pub IsSorted : HeaderMap → Type 0
IsSorted [] = Unit
IsSorted ((key, val) ∷ m) = NotBelow key m × IsSorted m

pub add-All :
    (P : Bytes × Bytes → Type 0) (key val : Bytes) (m : HeaderMap)
    → P (key, val)
    → All P m
    → All P (add key val m)
unfolding add
add-All P key val [] p h = (p, tt)
add-All P key val ((j, w) ∷ m) p h = elim (Bool-cases (bytes_less key j)) [
  | inl below ↦ rw below (p, h)
  | inr above ↦ rw above (h.0, add-All P key val m p h.1)
]

NotBelow-trans :
    (a b : Bytes) (m : HeaderMap) → bytes_less b a ≡ false → NotBelow b m → NotBelow a m
NotBelow-trans a b [] h k = tt
NotBelow-trans a b ((j, w) ∷ m) h k = (bytes_le_trans a b j h k.0, NotBelow-trans a b m h k.1)

-- Adding a header keeps the map sorted by key.
pub add-IsSorted : (key val : Bytes) (m : HeaderMap) → IsSorted m → IsSorted (add key val m)
unfolding add
add-IsSorted key val [] h = (tt, tt)
add-IsSorted key val ((j, w) ∷ m) h = elim (Bool-cases (bytes_less key j)) [
  | inl below ↦
      let k = bytes_less_asymm key j below in rw below ((k, NotBelow-trans key j m k h.0), h)
  | inr above ↦
      rw above
        (add-All (λ e. bytes_less e.0 j ≡ false) key val m above h.0, add-IsSorted key val m h.1)
]

-- A map whose keys are all above a key holds nothing under it.
pub get_above :
    (key j : Bytes) (m : HeaderMap) → bytes_less key j ≡ true → NotBelow j m → get key m ≡ []
unfolding get
get_above key j [] h k = refl
get_above key j ((i, w) ∷ m) h k =
    rw (bytes_less-ne key i (bytes_lt_of_lt_le key j i h k.0)) (get_above key j m h k.1)

-- In a sorted map the added value stands behind the values that its key had, and the values of every
-- other key stay as they were.
pub get-add :
    (key j val : Bytes) (m : HeaderMap)
    → IsSorted m
    → get key (add j val m) ≡ (if bytes_eq j key then get key m ++ val ∷ [] else get key m)
unfolding add get
get-add key j val [] h = refl
get-add key j val ((i, w) ∷ m) h = elim (Bool-cases (bytes_less j i)) [
  | inl below ↦ rw below (elim (Bool-cases (bytes_eq j key)) [
    | inl same ↦
        let below' = subst (λ x. bytes_less x i ≡ true) ((bytes_eq_iff j key).0 same) below in
        rw (same, bytes_less-ne key i below', get_above key i m below' h.0)
    | inr other ↦ rw other
  ])
  | inr above ↦ ground (arith, get-add key j val m h.1, above)
]

-- A header that is not below any key of the map goes to the end.
pub add_last :
    (key val : Bytes) (m : HeaderMap)
    → All (λ e. bytes_less key e.0 ≡ false) m
    → add key val m ≡ m ++ (key, val) ∷ []
unfolding add
add_last key val [] h = refl
add_last key val ((j, w) ∷ m) h = rw h.0 (ap (◌∷◌ (j, w)) (add_last key val m h.1))
