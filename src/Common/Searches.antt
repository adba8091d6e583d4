-- ===== src/Common/Searches.antt =====
-- What the searches of Common/Text.antt find in a text that is put together from parts.
use Prim.Native.Nat.{ℕ, zero, suc, ◌+◌, ◌≤◌, ◌<◌}
use mathlib.Core.Path.{◌≡◌, refl}
use mathlib.Core.Logic.{◌≢◌}
use mathlib.Core.List.{[], ◌∷◌, ◌++◌, append_assoc}
use mathlib.Core.Option.{none, some}
use native.Mathlib.Omega.{arith}
use cppio.Common.Lists.{
  length, drop, All, length-append, length-take, length-drop, take, take_all, take-length-append,
  drop-length-append,
}
use cppio.Common.Results.{value}
use cppio.Common.Text.{
  Bytes, npos, substr, find, find_first_of, to_pos, index_of, starts_with, position,
}

abbrev pub Lacks : ℕ → Bytes → Type 0
Lacks c = All (λ x. x ≢ c)

pub index_of-Lacks : (c : ℕ) (xs : Bytes) → Lacks c xs → index_of c xs ≡ none
unfolding index_of
index_of-Lacks c [] h = refl
index_of-Lacks c (x ∷ xs) h = ground (arith, index_of-Lacks c xs h.1)

pub index_of-append :
    (c : ℕ) (xs ys : Bytes) → Lacks c xs → index_of c (xs ++ c ∷ ys) ≡ some (length xs)
unfolding index_of
index_of-append c [] ys h = ground arith
index_of-append c (x ∷ xs) ys h = ground (arith, index_of-append c xs ys h.1)

pub index_of-lt-length : (c : ℕ) (xs : Bytes) (i : ℕ) → index_of c xs ≡ some i → i < length xs
unfolding index_of
index_of-lt-length c [] i h = cc
index_of-lt-length c (x ∷ xs) zero h = omega arith
index_of-lt-length c (x ∷ xs) (suc i) h = ground (arith, index_of-lt-length c xs i)

-- The text before the first `\r\n`, the `\r\n` and what follows.
abbrev pub crlf : Bytes
crlf = b'\r' ∷ b'\n' ∷ []

abbrev pub IsLine : Bytes → Type 0
IsLine xs = position crlf xs ≡ none

pub IsLine-tail : (x : ℕ) (xs : Bytes) → IsLine (x ∷ xs) → IsLine xs
unfolding position
IsLine-tail x xs h = ground arith

pub position-line :
    (xs ys : Bytes) → IsLine xs → position crlf (xs ++ (crlf ++ ys)) ≡ some (length xs)
unfolding position starts_with
position-line [] ys h = refl
position-line (x ∷ []) ys h = ground arith
position-line (x ∷ y ∷ xs) ys h =
    ground (arith, position-line (y ∷ xs) ys (IsLine-tail x (y ∷ xs) h))

pub substr_prefix : (xs ys : Bytes) → substr (xs ++ ys) 0 (length xs) ≡ value xs
unfolding substr
substr_prefix xs ys = ground (arith, take-length-append xs ys)

pub substr_whole : (xs : Bytes) (n : ℕ) → length xs ≤ n → substr xs 0 n ≡ value xs
unfolding substr
substr_whole xs n h = ground (arith, take_all n xs h)

-- The text behind a prefix of known length and a separator.
pub drop_prefix :
    (n : ℕ) (xs sep ys : Bytes) → n ≡ length (xs ++ sep) → drop n (xs ++ (sep ++ ys)) ≡ ys
drop_prefix n xs sep ys h = rw (h, ← append_assoc) (drop-length-append (xs ++ sep) ys)

pub substr_suffix :
    (pos n : ℕ) (xs sep ys : Bytes)
    → pos ≡ length (xs ++ sep)
    → length ys ≤ n
    → substr (xs ++ (sep ++ ys)) pos n ≡ value ys
unfolding substr
substr_suffix pos n xs sep ys h k = ground (
  arith,
  drop_prefix pos xs sep ys h,
  take_all n ys k,
  length-append xs sep,
  length-append xs (sep ++ ys),
  length-append sep ys,
)

pub substr_within :
    (text : Bytes) (pos n : ℕ)
    → pos ≤ length text
    → substr text pos n ≡ value (take n (drop pos text))
unfolding substr
substr_within text pos n h = ground arith

pub substr_middle :
    (pos : ℕ) (pre xs ys : Bytes)
    → pos ≡ length pre
    → substr (pre ++ (xs ++ ys)) pos (length xs) ≡ value xs
unfolding substr
substr_middle pos pre xs ys e =
    rw (e, drop-length-append pre (xs ++ ys), take-length-append xs ys)
      (ground (arith, length-append pre (xs ++ ys)))

-- A text that `substr` gives from behind the start is shorter.
pub length-substr :
    (text : Bytes) (pos n : ℕ) {t : Bytes}
    → substr text pos n ≡ value t
    → length t + pos ≤ length text
unfolding substr
length-substr text pos n h = ground (arith, length-take n (drop pos text), length-drop pos text)

pub position-lt-length :
    (p : ℕ) (ps text : Bytes) (i : ℕ) → position (p ∷ ps) text ≡ some i → i < length text
unfolding position starts_with
position-lt-length p ps [] i h = cc
position-lt-length p ps (x ∷ text) zero h = omega arith
position-lt-length p ps (x ∷ text) (suc i) h = ground (arith, position-lt-length p ps text i)

pub find_first_of-append :
    (c : ℕ) (xs ys : Bytes) → Lacks c xs → find_first_of (xs ++ c ∷ ys) c 0 ≡ length xs
unfolding find_first_of to_pos
find_first_of-append c xs ys h = rw (index_of-append c xs ys h) (omega arith)

-- The search from behind a prefix.
pub find_first_of-append_from :
    (c from : ℕ) (pre xs ys : Bytes)
    → from ≡ length pre
    → Lacks c xs
    → find_first_of (pre ++ (xs ++ c ∷ ys)) c from ≡ from + length xs
unfolding find_first_of to_pos
find_first_of-append_from c from pre xs ys e h =
    rw (e, drop-length-append pre (xs ++ c ∷ ys), index_of-append c xs ys h)

pub find_first_of-Lacks : (c : ℕ) (xs : Bytes) → Lacks c xs → find_first_of xs c 0 ≡ npos
unfolding find_first_of to_pos
find_first_of-Lacks c xs h = rw (index_of-Lacks c xs h)

pub find-line : (xs ys : Bytes) → IsLine xs → find (xs ++ (crlf ++ ys)) crlf ≡ length xs
unfolding find to_pos
find-line xs ys h = rw (position-line xs ys h) (omega arith)

pub IsLine-of_Lacks : (xs : Bytes) → Lacks b'\r' xs → IsLine xs
unfolding position starts_with
IsLine-of_Lacks [] h = refl
IsLine-of_Lacks (x ∷ []) h = ground arith
IsLine-of_Lacks (x ∷ y ∷ xs) h = ground (arith, IsLine-of_Lacks (y ∷ xs) h.1)

IsLine-cons :
    (x y : ℕ) (xs zs : Bytes) → IsLine (x ∷ y ∷ xs) → IsLine (y ∷ zs) → IsLine (x ∷ y ∷ zs)
unfolding position starts_with
IsLine-cons x y xs zs h k = ground arith

pub IsLine-blank : (ys : Bytes) (c : ℕ) → c ≢ b'\r' → IsLine ys → IsLine (c ∷ ys)
unfolding position starts_with
IsLine-blank [] c n h = ground arith
IsLine-blank (y ∷ ys) c n h = ground arith

-- A line stays one if another follows it that does not begin with `\n`.
pub IsLine-append :
    (xs ys : Bytes) (c : ℕ) → IsLine xs → IsLine (c ∷ ys) → c ≢ b'\n' → IsLine (xs ++ (c ∷ ys))
IsLine-append [] ys c h l n = l
IsLine-append (x ∷ []) ys c h l n = unfold position starts_with in ground (arith, l)
IsLine-append (x ∷ y ∷ xs) ys c h l n =
    IsLine-cons x y xs (xs ++ (c ∷ ys)) h
      (IsLine-append (y ∷ xs) ys c (IsLine-tail x (y ∷ xs) h) l n)
