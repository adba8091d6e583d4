-- ===== src/Common/Order.antt =====
-- Equality and the lexicographic order of texts.
use mathlib.Core.Bool.{true, false}
use mathlib.Core.Path.{◌≡◌, refl}
use mathlib.Core.Logic.{◌↔◌}
use mathlib.Core.List.{[], ◌∷◌}
use native.Mathlib.Omega.{arith}
use cppio.Common.Text.{Bytes, bytes_eq, bytes_less}

pub bytes_eq_iff : (a b : Bytes) → (bytes_eq a b ≡ true) ↔ (a ≡ b)
unfolding bytes_eq
bytes_eq_iff (x ∷ a) (y ∷ b) = ground (arith, bytes_eq_iff a b)
bytes_eq_iff _ _ = ground arith

pub bytes_less_irrefl : (a : Bytes) → bytes_less a a ≡ false
unfolding bytes_less
bytes_less_irrefl [] = refl
bytes_less_irrefl (x ∷ a) = ground (arith, bytes_less_irrefl a)

pub bytes_less_asymm : (a b : Bytes) → bytes_less a b ≡ true → bytes_less b a ≡ false
unfolding bytes_less
bytes_less_asymm (x ∷ a) (y ∷ b) h = ground (arith, bytes_less_asymm a b)
bytes_less_asymm [] (y ∷ b) h = refl
bytes_less_asymm _ _ h = cc

-- `≤` on texts, as the multimap keeps it: the later key is not below the earlier.
pub bytes_le_trans :
    (a b c : Bytes) → bytes_less b a ≡ false → bytes_less c b ≡ false → bytes_less c a ≡ false
unfolding bytes_less
bytes_le_trans (x ∷ a) (y ∷ b) (z ∷ c) h k = ground (arith, bytes_le_trans a b c)
bytes_le_trans [] b [] h k = refl
bytes_le_trans [] b (z ∷ c) h k = refl
bytes_le_trans (x ∷ a) [] c h k = cc
bytes_le_trans (x ∷ a) (y ∷ b) [] h k = cc

pub bytes_lt_of_lt_le :
    (a b c : Bytes) → bytes_less a b ≡ true → bytes_less c b ≡ false → bytes_less a c ≡ true
unfolding bytes_less
bytes_lt_of_lt_le (x ∷ a) (y ∷ b) (z ∷ c) h k = ground (arith, bytes_lt_of_lt_le a b c)
bytes_lt_of_lt_le [] (y ∷ b) (z ∷ c) h k = refl
bytes_lt_of_lt_le a (y ∷ b) [] h k = cc
bytes_lt_of_lt_le [] [] c h k = cc
bytes_lt_of_lt_le (x ∷ a) [] c h k = cc

pub bytes_less-ne : (a b : Bytes) → bytes_less a b ≡ true → bytes_eq b a ≡ false
unfolding bytes_eq bytes_less
bytes_less-ne (x ∷ a) (y ∷ b) h = ground (arith, bytes_less-ne a b)
bytes_less-ne [] (y ∷ b) h = refl
bytes_less-ne [] [] h = cc
bytes_less-ne (x ∷ a) [] h = cc

pub bytes_eq_refl : (a : Bytes) → bytes_eq a a ≡ true
bytes_eq_refl a = (bytes_eq_iff a a).1 refl

pub bytes_less_antisymm : (a b : Bytes) → bytes_less a b ≡ false → bytes_less b a ≡ false → a ≡ b
unfolding bytes_less
bytes_less_antisymm [] [] h k = refl
bytes_less_antisymm [] (y ∷ b) h k = cc
bytes_less_antisymm (x ∷ a) [] h k = cc
bytes_less_antisymm (x ∷ a) (y ∷ b) h k = ground (arith, bytes_less_antisymm a b)
