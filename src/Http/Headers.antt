-- ===== src/Http/Headers.antt =====
-- cppio/network/http/header_map.hpp and header_map.inl: the headers of a message. The `multimap` is
-- the list of its pairs in iteration order: sorted by key, and pairs of one key in the order in which
-- they were added. A move leaves the source empty.
pub mod Multimap
pub mod Abstract
pub mod Lines
pub mod Loop
pub mod Format
pub mod Described
pub mod RoundTrip
use cppio.Common.{
  ℕ, zero, suc, ◌+◌, Bool, true, false, Option, none, some, List, [], ◌∷◌, ◌++◌, ◌==◌, length,
  if◌then◌else◌, Outcome, value, error, terminate, diverge, invalid_argument, ◌>>=◌,
}
use cppio.Common.Text.{Bytes, codes, npos, add64, substr, find, find_first_of, bytes_eq, bytes_less}
use cppio.Http.{line_end}

abbrev pub HeaderMap : Type 0
HeaderMap = List (Bytes × Bytes)

-- `emplace` puts the pair behind the last key that is not above its own.
unfoldable pub add : Bytes → Bytes → HeaderMap → HeaderMap
add key val [] = (key, val) ∷ []
add key val ((j, w) ∷ m) =
    if bytes_less key j then (key, val) ∷ (j, w) ∷ m else (j, w) ∷ add key val m

unfoldable pub get : Bytes → HeaderMap → List Bytes
get key [] = []
get key ((c_key, val) ∷ m) = if bytes_eq c_key key then val ∷ get key m else get key m

unfoldable pub serialize : HeaderMap → Bytes
serialize [] = []
serialize ((key, val) ∷ m) = key ++ (codes ": " ++ (val ++ (line_end ++ serialize m)))

-- The move assignment swaps the maps: the new left side and the new right side.
unfoldable pub move_assign : HeaderMap → HeaderMap → HeaderMap × HeaderMap
move_assign lhs rhs = (rhs, lhs)

-- The copy constructor and the copy assignment: the new left side, and the right side, which is kept.
unfoldable pub copy : HeaderMap → HeaderMap × HeaderMap
copy rhs = (rhs, rhs)

unfoldable pub copy_assign : HeaderMap → HeaderMap → HeaderMap × HeaderMap
copy_assign lhs rhs = (rhs, rhs)

-- The move constructor: the new map, and what is left in the old one.
unfoldable pub move : HeaderMap → HeaderMap × HeaderMap
move rhs = (rhs, [])

-- The key and the value of one line; the byte behind the colon is skipped unread.
unfoldable pub header_line : Bytes → Outcome (Bytes × Bytes)
header_line current_view =
    let header_pos = find_first_of current_view b':' 0 in
    if header_pos == npos then error invalid_argument else do
      key ← substr current_view 0 header_pos
      val ← substr current_view (add64 header_pos 2) npos
      value (key, val)

-- One round of the loop: the new map, and the text of the next round unless the loop breaks.
unfoldable pub create_round : Bytes → HeaderMap → Outcome (HeaderMap × Option Bytes)
create_round text m = do
  let pos = find text line_end
  current_view ← substr text 0 pos
  entry ← header_line current_view
  rest ← substr text (add64 pos 2) npos
  value (add entry.0 entry.1 m, if pos == npos then none else some rest)

unfoldable pub create_loop : ℕ → Bytes → HeaderMap → Outcome HeaderMap
create_loop fuel [] m = value m
create_loop zero (c ∷ text) m = diverge
create_loop (suc fuel) (c ∷ text) m = do
  (m', next) ← create_round (c ∷ text) m
  elim next [ none ↦ value m' | some rest ↦ create_loop fuel rest m' ]

-- Each round takes two bytes at least, so the size of the text is enough fuel.
unfoldable pub create : Bytes → Outcome HeaderMap
create text = create_loop (length text) text []
