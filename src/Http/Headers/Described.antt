-- ===== src/Http/Headers/Described.antt =====
-- header_map.inl: `create` against the description of its format, on every text.
use cppio.Common.{
  ℕ, zero, suc, ◌+◌, ◌≤◌, ◌≡◌, refl, arith, false, ◌==◌, none, some, List, [], ◌∷◌, length, drop,
  take, Outcome, value, error, terminate, diverge, ◌>>=◌, sym, ap, Option, ◌∙◌, ◌<◌, Option-cases,
  inl, inr, take_all, length-drop, ◌⊎◌, ◌%◌, length-take,
}
use cppio.Common.Text.{
  Bytes, position, index_of, substr, npos, find_first_of, to_pos, size_mod, find,
}
use cppio.Common.Searches.{IsLine, crlf, index_of-lt-length, substr_within, substr_whole}
use cppio.Http.Headers.{HeaderMap, add, header_line, create_round, create_loop, create}
use cppio.Http.Headers.Format.{
  cut_line, split_lines, read_lines, split_lines_whole, split_lines_first, position-fits,
  cut_line-none, cut_line-bare, cut_line-pair,
}

at_end_or_before : (i n : ℕ) → i < n → (n ≡ suc i) ⊎ (suc i < n)
at_end_or_before i n h = omega arith

substr_behind :
    (text : Bytes) (pos : ℕ)
    → pos ≤ length text
    → length text < npos
    → substr text pos npos ≡ value (drop pos text)
substr_behind text pos h fits =
    substr_within text pos npos h
    ∙ ap value (take_all npos (drop pos text) (omega (arith, length-drop pos text)))

substr_past : (text : Bytes) (pos n : ℕ) → length text < pos → substr text pos n ≡ terminate
unfolding substr
substr_past text pos n h = ground arith

-- The positions that `header_line` computes, as it uses them.
header_line-at :
    (line : Bytes) (i : ℕ)
    → index_of b':' line ≡ some i
    → length line < npos
    → header_line line ≡ (
        substr line 0 i >>= λ key.
        substr line (suc (suc i)) npos >>= λ val. Outcome.value (key, val))
unfolding header_line find_first_of to_pos
header_line-at line i found fits =
    let small = index_of-lt-length b':' line i found in
    let pos : (0 + i + 2) % size_mod ≡ suc (suc i) = omega arith in
    let start : 0 + i ≡ i = omega arith in rw (found, pos, start) (ground (arith, small))

-- `header_line` reads a line that fits in memory as the description does.
header_line-cut_line : (line : Bytes) → length line < npos → header_line line ≡ cut_line line
header_line-cut_line line fits = elim (Option-cases (index_of b':' line)) [
  | inl missing ↦
      unfold header_line find_first_of to_pos in rw missing (sym (cut_line-none line missing))
  | inr (i, found) ↦
      header_line-at line i found fits
      ∙ cut line i found fits
          (at_end_or_before i (length line) (index_of-lt-length b':' line i found))
]
  where
    cut :
        (line : Bytes) (i : ℕ)
        → index_of b':' line ≡ some i
        → length line < npos
        → (length line ≡ suc i) ⊎ (suc i < length line)
        → (substr line 0 i >>= λ key.
            substr line (suc (suc i)) npos >>= λ val. Outcome.value (key, val))
          ≡ cut_line line
    cut line i found fits (inl e) =
        rw (substr_within line 0 i (omega arith), substr_past line (suc (suc i)) npos (omega arith))
          (sym (cut_line-bare line i found e))
    cut line i found fits (inr h) =
        rw
          (
            substr_within line 0 i (omega arith),
            substr_behind line (suc (suc i)) (omega arith) fits,
          )
          (sym (cut_line-pair line i found h))

-- A round that finds no `\r\n`, and one that finds it at `i`.
create_round-last :
    (x : ℕ) (text : Bytes) (m : HeaderMap)
    → IsLine (x ∷ text)
    → length (x ∷ text) < npos
    → create_round (x ∷ text) m
      ≡ (cut_line (x ∷ text) >>= λ entry. Outcome.value (add entry.0 entry.1 m, none))
unfolding create_round find to_pos
create_round-last x text m is_line fits =
    rw
      (
        is_line,
        substr_whole (x ∷ text) npos (omega arith),
        header_line-cut_line (x ∷ text) fits,
        substr_behind (x ∷ text) 1 (omega arith) fits,
      )
      refl

create_round-first :
    (text : Bytes) (m : HeaderMap) (i : ℕ)
    → position crlf text ≡ some i
    → length text < npos
    → create_round text m ≡ (
        cut_line (take i text) >>= λ entry.
        Outcome.value (add entry.0 entry.1 m, some (drop (suc (suc i)) text)))
unfolding create_round find to_pos
create_round-first text m i found fits =
    let small = position-fits text i found in
    let pos : (0 + i + 2) % size_mod ≡ suc (suc i) = omega arith in
    let start : 0 + i ≡ i = omega arith in
    let before : (i == npos) ≡ false = ground (arith, small) in
    rw
      (
        found,
        pos,
        start,
        substr_within text 0 i (omega arith),
        substr_behind text (suc (suc i)) (omega (arith, small)) fits,
        header_line-cut_line (take i text) (omega (arith, length-take i text)),
        before,
      )
      refl

read_lines-cons :
    (line : Bytes) (lines : List Bytes) (m : HeaderMap)
    → read_lines (line ∷ lines) m
      ≡ (cut_line line >>= λ entry. read_lines lines (add entry.0 entry.1 m))
unfolding read_lines
read_lines-cons line lines m = refl

-- The loop behind a round.
abbrev loop_behind : ℕ → HeaderMap → Option Bytes → Outcome HeaderMap
loop_behind fuel m none = value m
loop_behind fuel m (some rest) = create_loop fuel rest m

create_loop-suc :
    (fuel : ℕ) (c : ℕ) (text : Bytes) (m : HeaderMap)
    → create_loop (suc fuel) (c ∷ text) m
      ≡ (create_round (c ∷ text) m >>= λ n. loop_behind fuel n.0 n.1)
unfolding create_loop
create_loop-suc fuel c text m = refl

-- What a round does with the answer of a line, and the loop with the round.
round_then_loop :
    (fuel : ℕ) (r : Outcome (Bytes × Bytes)) (m : HeaderMap) (next : Option Bytes)
    (lines : List Bytes)
    → ((m' : HeaderMap) → loop_behind fuel m' next ≡ read_lines lines m')
    → (◌>>=◌ {B = HeaderMap × Option Bytes} r (λ entry. value (add entry.0 entry.1 m, next))
        >>= λ n. loop_behind fuel n.0 n.1)
      ≡ (r >>= λ entry. read_lines lines (add entry.0 entry.1 m))
round_then_loop fuel (value (key, val)) m next lines h = h (add key val m)
round_then_loop fuel (error code) m next lines h = refl
round_then_loop fuel terminate m next lines h = refl
round_then_loop fuel diverge m next lines h = refl

create_loop-read_lines :
    (fuel : ℕ) (text : Bytes) (m : HeaderMap)
    → length text < npos
    → length text ≤ fuel
    → create_loop fuel text m ≡ read_lines (split_lines text) m
create_loop-read_lines fuel [] m fits enough = unfold create_loop split_lines read_lines in refl
create_loop-read_lines zero (c ∷ text) m fits enough = absurd (omega arith)
create_loop-read_lines (suc fuel) (c ∷ text) m fits enough =
    create_loop-suc fuel c text m ∙ elim (Option-cases (position crlf (c ∷ text))) [
      | inl is_line ↦
          rw
            (
              create_round-last c text m is_line fits,
              split_lines_whole c text is_line,
              read_lines-cons,
            )
            (round_then_loop fuel (cut_line (c ∷ text)) m none [] (λ m'. unfold read_lines in refl))
      | inr (i, found) ↦
          let rest : Bytes = drop (suc (suc i)) (c ∷ text) in
          let size = length-drop (suc (suc i)) (c ∷ text) in
          rw
            (
              create_round-first (c ∷ text) m i found fits,
              split_lines_first (c ∷ text) i found,
              read_lines-cons,
            )
            (round_then_loop fuel (cut_line (take i (c ∷ text))) m (some rest) (split_lines rest)
              (λ m'.
                create_loop-read_lines fuel rest m' (omega (arith, size)) (omega (arith, size))))
    ]

-- On every text that fits in memory, `create` gives what the description of its format gives: the
-- headers of its lines, or the failure of the first line that is not one.
pub create-read_lines :
    (text : Bytes) → length text < npos → create text ≡ read_lines (split_lines text) []
unfolding create
create-read_lines text fits = create_loop-read_lines (length text) text [] fits (omega arith)
