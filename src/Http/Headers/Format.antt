-- ===== src/Http/Headers/Format.antt =====
-- header_map.inl: the format that `create` reads, described byte by byte and with no positions.
use cppio.Common.{
  ℕ, zero, suc, ◌+◌, ◌≤◌, ◌≡◌, refl, arith, Bool, true, false, ◌&&◌, ◌==◌, none, some, List, [],
  ◌∷◌, length, drop, take, Outcome, value, error, terminate, invalid_argument, ◌>>=◌, sym, ap,
  Option, if◌then◌else◌, ◌∙◌, ◌<◌,
}
use cppio.Common.Text.{Bytes, position, starts_with, index_of}
use cppio.Common.Searches.{IsLine, crlf}
use cppio.Http.Headers.{HeaderMap, add}

-- The text behind the first colon of a line: a byte that is skipped, and the value.
abbrev behind_colon : Bytes → Outcome (Bytes × Bytes)
behind_colon [] = terminate
behind_colon (c ∷ val) = value ([], val)

-- The key and the value of a line.
unfoldable pub cut_line : Bytes → Outcome (Bytes × Bytes)
cut_line [] = error invalid_argument
cut_line (x ∷ line) = elim (x == b':') [
  | true ↦ behind_colon line
  | false ↦ (cut_line line >>= λ entry. value (x ∷ entry.0, entry.1))
]

abbrev put_before : ℕ → List Bytes → List Bytes
put_before x [] = (x ∷ []) ∷ []
put_before x (line ∷ lines) = (x ∷ line) ∷ lines

unfoldable pub ends_line : ℕ → ℕ → Bool
ends_line x y = x == b'\r' && y == b'\n'

-- The lines of a text: each ends with `\r\n`, but the last need not.
unfoldable pub split_lines : Bytes → List Bytes
split_lines [] = []
split_lines (x ∷ []) = (x ∷ []) ∷ []
split_lines (x ∷ y ∷ text) = elim (ends_line x y) [
  | true ↦ [] ∷ split_lines text
  | false ↦ put_before x (split_lines (y ∷ text))
]

-- The headers of the lines, in order, up to the first that is not read.
unfoldable pub read_lines : List Bytes → HeaderMap → Outcome HeaderMap
read_lines [] m = value m
read_lines (line ∷ lines) m = do (key, val) ← cut_line line; read_lines lines (add key val m)

-- What the search finds, whether the line ends here or not.
abbrev found_at : Bool → Option ℕ → Option ℕ
found_at true behind = some 0
found_at false none = none
found_at false (some i) = some (suc i)

and-true :
    (a b : Bool) (behind : Option ℕ)
    → (if a && (b && true) then some 0 else elim behind [ none ↦ none | some i ↦ some (suc i) ])
      ≡ found_at (a && b) behind
and-true true true behind = refl
and-true true false none = refl
and-true true false (some i) = refl
and-true false b none = refl
and-true false b (some i) = refl

position_step :
    (x y : ℕ) (text : Bytes)
    → position crlf (x ∷ y ∷ text) ≡ found_at (ends_line x y) (position crlf (y ∷ text))
unfolding position starts_with ends_line
position_step x y text = and-true (x == b'\r') (y == b'\n') (position crlf (y ∷ text))

found_at-none :
    (b : Bool) (behind : Option ℕ) → found_at b behind ≡ none → (b ≡ false) × (behind ≡ none)
found_at-none true behind h = cc
found_at-none false none h = (refl, refl)
found_at-none false (some i) h = cc

found_at-zero : (b : Bool) (behind : Option ℕ) → found_at b behind ≡ some 0 → b ≡ true
found_at-zero true behind h = refl
found_at-zero false none h = cc
found_at-zero false (some i) h = ground arith

found_at-suc :
    (b : Bool) (behind : Option ℕ) (i : ℕ)
    → found_at b behind ≡ some (suc i)
    → (b ≡ false) × (behind ≡ some i)
found_at-suc true behind i h = ground arith
found_at-suc false none i h = cc
found_at-suc false (some j) i h = ground arith

split_lines-here :
    (x y : ℕ) (text : Bytes)
    → ends_line x y ≡ true
    → split_lines (x ∷ y ∷ text) ≡ [] ∷ split_lines text
unfolding split_lines
split_lines-here x y text here =
    ap
      (λ (b : Bool). elim b [
        | true ↦ [] ∷ split_lines text
        | false ↦ put_before x (split_lines (y ∷ text))
      ])
      here

split_lines-later :
    (x y : ℕ) (text : Bytes)
    → ends_line x y ≡ false
    → split_lines (x ∷ y ∷ text) ≡ put_before x (split_lines (y ∷ text))
unfolding split_lines
split_lines-later x y text later =
    ap
      (λ (b : Bool). elim b [
        | true ↦ [] ∷ split_lines text
        | false ↦ put_before x (split_lines (y ∷ text))
      ])
      later

position_one : (x : ℕ) → position crlf (x ∷ []) ≡ none
unfolding position starts_with
position_one x = ground arith

pub split_lines_whole :
    (x : ℕ) (text : Bytes) → IsLine (x ∷ text) → split_lines (x ∷ text) ≡ (x ∷ text) ∷ []
split_lines_whole x [] h = unfold split_lines in refl
split_lines_whole x (y ∷ text) h =
    let (later, behind) = found_at-none _ _ (sym (position_step x y text) ∙ h) in
    split_lines-later x y text later ∙ ap (put_before x) (split_lines_whole y text behind)

pub split_lines_first :
    (text : Bytes) (i : ℕ)
    → position crlf text ≡ some i
    → split_lines text ≡ take i text ∷ split_lines (drop (suc (suc i)) text)
split_lines_first [] i h = unfold position starts_with in cc
split_lines_first (x ∷ []) i h = ground (arith, position_one x)
split_lines_first (x ∷ y ∷ text) zero h =
    split_lines-here x y text (found_at-zero _ _ (sym (position_step x y text) ∙ h))
split_lines_first (x ∷ y ∷ text) (suc i) h =
    let (later, behind) = found_at-suc _ _ i (sym (position_step x y text) ∙ h) in
    split_lines-later x y text later ∙ ap (put_before x) (split_lines_first (y ∷ text) i behind)

pub position-fits : (text : Bytes) (i : ℕ) → position crlf text ≡ some i → i + 2 ≤ length text
position-fits [] i h = unfold position starts_with in cc
position-fits (x ∷ []) i h = ground (arith, position_one x)
position-fits (x ∷ y ∷ text) zero h = omega arith
position-fits (x ∷ y ∷ text) (suc i) h =
    omega
      (arith, position-fits (y ∷ text) i (found_at-suc _ _ i (sym (position_step x y text) ∙ h)).1)

pub cut_line-none :
    (line : Bytes) → index_of b':' line ≡ none → cut_line line ≡ error invalid_argument
unfolding cut_line index_of
cut_line-none [] h = refl
cut_line-none (x ∷ line) h = ground (arith, cut_line-none line)

-- A line that ends with its first colon.
pub cut_line-bare :
    (line : Bytes) (i : ℕ)
    → index_of b':' line ≡ some i
    → length line ≡ suc i
    → cut_line line ≡ terminate
unfolding cut_line index_of
cut_line-bare [] i h e = cc
cut_line-bare (x ∷ []) zero h e = ground arith
cut_line-bare (x ∷ y ∷ line) zero h e = absurd (omega arith)
cut_line-bare (x ∷ line) (suc i) h e = ground (arith, cut_line-bare line i)

-- A line with a byte behind its first colon.
pub cut_line-pair :
    (line : Bytes) (i : ℕ)
    → index_of b':' line ≡ some i
    → suc i < length line
    → cut_line line ≡ value (take i line, drop (suc (suc i)) line)
unfolding cut_line index_of
cut_line-pair [] i h e = cc
cut_line-pair (x ∷ []) zero h e = absurd (omega arith)
cut_line-pair (x ∷ y ∷ line) zero h e = ground arith
cut_line-pair (x ∷ line) (suc i) h e = ground (arith, cut_line-pair line i)
