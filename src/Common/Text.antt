-- ===== src/Common/Text.antt =====
-- `std::string` and `std::string_view` as lists of bytes: the searches and `substr` that the
-- program calls, with `npos` and the arithmetic of a 64-bit `size_t` written out.
use Prim.Native.Nat.{ℕ, suc, ◌+◌, ◌-◌, ◌%◌, ◌^◌}
use Prim.Native.Char.{code}
use Prim.Native.String.{String}
use mathlib.Core.Bool.{Bool, true, false, ◌&&◌}
use mathlib.Core.List.{List, [], ◌∷◌}
use mathlib.Core.Option.{Option, none, some}
use cppio.Common.Tests.{ltb, ◌==◌, if◌then◌else◌}
use cppio.Common.Lists.{length, take, drop}
use cppio.Common.Results.{Outcome, value, terminate}

abbrev pub Bytes : Type 0
Bytes = List ℕ

-- The code points of a literal: its bytes, since each literal here is ASCII.
abbrev pub codes : String → Bytes
codes String.[] = []
codes (String.◌∷◌ c s) = code c ∷ codes s

abbrev pub size_mod : ℕ
size_mod = 2 ^ 64

abbrev pub npos : ℕ
npos = 2 ^ 64 - 1

abbrev pub add64 : ℕ → ℕ → ℕ
add64 a b = (a + b) % size_mod

abbrev pub sub64 : ℕ → ℕ → ℕ
sub64 a b = (a + size_mod - b) % size_mod

-- `substr(pos, n)` throws `out_of_range` if `pos` is past the end, which ends the process in a
-- function marked `noexcept`.
unfoldable pub substr : Bytes → ℕ → ℕ → Outcome Bytes
substr text pos n = if ltb (length text) pos then terminate else value (take n (drop pos text))

unfoldable pub index_of : ℕ → Bytes → Option ℕ
index_of c [] = none
index_of c (x ∷ xs) =
    if x == c then some 0 else elim (index_of c xs) [ none ↦ none | some i ↦ some (suc i) ]

unfoldable pub starts_with : Bytes → Bytes → Bool
starts_with [] text = true
starts_with (p ∷ ps) [] = false
starts_with (p ∷ ps) (x ∷ xs) = x == p && starts_with ps xs

unfoldable pub position : Bytes → Bytes → Option ℕ
position pattern [] = if starts_with pattern [] then some 0 else none
position pattern (x ∷ xs) =
    if starts_with pattern (x ∷ xs)
    then some 0
    else elim (position pattern xs) [ none ↦ none | some i ↦ some (suc i) ]

-- The index as the standard library returns it.
unfoldable pub to_pos : ℕ → Option ℕ → ℕ
to_pos from none = npos
to_pos from (some i) = from + i

-- `text.find_first_of(c, from)`
unfoldable pub find_first_of : Bytes → ℕ → ℕ → ℕ
find_first_of text c from = to_pos from (index_of c (drop from text))

-- `text.find(pattern)`
unfoldable pub find : Bytes → Bytes → ℕ
find text pattern = to_pos 0 (position pattern text)

-- `a == b` and `a < b` of `std::string`
unfoldable pub bytes_eq : Bytes → Bytes → Bool
bytes_eq [] [] = true
bytes_eq (x ∷ xs) (y ∷ ys) = x == y && bytes_eq xs ys
bytes_eq _ _ = false

unfoldable pub bytes_less : Bytes → Bytes → Bool
bytes_less [] [] = false
bytes_less [] (y ∷ ys) = true
bytes_less (x ∷ xs) [] = false
bytes_less (x ∷ xs) (y ∷ ys) = if ltb x y then true else if ltb y x then false else bytes_less xs ys
