-- ===== src/Http/Headers/Lines.antt =====
-- header_map.inl: what `create` makes of a line, and the end of its loop.
use cppio.Common.{
  ℕ, ◌+◌, ◌%◌, ◌<◌, ◌≡◌, arith, none, some, [], ◌∷◌, ◌++◌, length, length-append, value, error,
  invalid_argument,
}
use cppio.Common.Text.{Bytes, npos, size_mod, find, find_first_of, to_pos}
use cppio.Common.Searches.{
  Lacks, IsLine, crlf, index_of-append, index_of-Lacks, position-line, substr_prefix, substr_whole,
  substr_suffix, substr_within,
}
use cppio.Http.Headers.{HeaderMap, add, header_line, create_round}

-- A line with a colon and one more byte behind it gives the key before the colon and the value behind
-- that byte.
pub header_line_lem :
    (key val : Bytes) (c : ℕ)
    → Lacks b':' key
    → length key + length val + 2 < npos
    → header_line (key ++ (b':' ∷ c ∷ val)) ≡ value (key, val)
unfolding header_line find_first_of to_pos
header_line_lem key val c lacks fits = rw (index_of-append b':' key (c ∷ val) lacks) (
    let pos : ℕ = (length key + 2) % size_mod in
    let fit : pos ≡ length (key ++ (b':' ∷ c ∷ [])) =
      omega (arith, length-append key (b':' ∷ c ∷ [])) in
    ground (
      arith,
      substr_prefix key (b':' ∷ c ∷ val),
      substr_suffix pos npos key (b':' ∷ c ∷ []) val fit (omega arith),
    ))

-- A line with no colon is refused.
pub header_line_no_colon :
    (line : Bytes) → Lacks b':' line → header_line line ≡ error invalid_argument
unfolding header_line find_first_of to_pos
header_line_no_colon line lacks = rw (index_of-Lacks b':' line lacks)

module _ (key val : Bytes) (c : ℕ) (lacks : Lacks b':' key) (m : HeaderMap) where
  abbrev entry_line : Bytes
  entry_line = key ++ (b':' ∷ c ∷ val)

  -- A line with a `\r\n` behind it: the header is added, and the rest is left to read.
  pub create_round-line :
      (rest : Bytes)
      → IsLine entry_line
      → length entry_line + length rest + 2 < npos
      → create_round (entry_line ++ (crlf ++ rest)) m ≡ value (add key val m, some rest)
  unfolding create_round find to_pos
  create_round-line rest is_line fits = rw (position-line entry_line rest is_line) (
      let pos : ℕ = (length entry_line + 2) % size_mod in
      let small : length entry_line ≡ length key + length val + 2 =
        omega (arith, length-append key (b':' ∷ c ∷ val)) in
      let fit : pos ≡ length (entry_line ++ crlf) = omega (arith, length-append entry_line crlf) in
      ground (
        arith,
        small,
        substr_prefix entry_line (crlf ++ rest),
        header_line_lem key val c lacks (omega arith),
        substr_suffix pos npos entry_line crlf rest fit (omega arith),
      ))

  -- The last line needs no `\r\n`: the header is added, and the loop breaks.
  pub create_round_last :
      IsLine entry_line
      → length entry_line < npos
      → create_round entry_line m ≡ value (add key val m, none)
  unfolding create_round find to_pos
  create_round_last is_line fits = rw is_line (
      let small : length entry_line ≡ length key + length val + 2 =
        omega (arith, length-append key (b':' ∷ c ∷ val)) in
      ground (
        arith,
        substr_whole entry_line npos (omega arith),
        header_line_lem key val c lacks (omega arith),
        substr_within entry_line 1 npos (omega arith),
      ))
