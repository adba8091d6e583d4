-- ===== src/Http/Headers/Loop.antt =====
-- header_map.inl: the end of the loop of `create`, on every text, and the lines that it refuses.
use cppio.Common.{
  subst, value-injective, ℕ, zero, suc, ◌≤◌, ◌<◌, ◌≡◌, ◌≢◌, refl, arith, Option, none, some, [],
  ◌∷◌, ◌++◌, length, drop, take, Outcome, value, error, terminate, diverge, invalid_argument, ◌>>=◌,
  >>=-eq-value, ◌⊎◌, Option-cases, inl, inr,
}
use cppio.Common.Text.{Bytes, npos, add64, substr, find, position, to_pos}
use cppio.Common.Searches.{
  Lacks, IsLine, crlf, position-line, substr_prefix, length-substr, position-lt-length,
}
use cppio.Http.{line_end}
use cppio.Http.Headers.Lines.{header_line_no_colon}
use cppio.Http.Headers.Multimap.{IsSorted, add-IsSorted}
use cppio.Http.Headers.{HeaderMap, add, header_line, create_round, create_loop, create}

find_small :
    (text : Bytes)
    → length text < npos
    → (find text line_end ≡ npos) ⊎ (find text line_end < length text)
unfolding find to_pos
find_small text fits = elim (Option-cases (position line_end text)) [
  | inl missing ↦ rw missing (inl refl)
  | inr (i, found) ↦
      rw found (inr (omega (arith, position-lt-length b'\r' (b'\n' ∷ []) text i found)))
]

-- A round that does not break leaves less to read.
create_round_shrinks :
    (text : Bytes) (m m' : HeaderMap) (rest : Bytes)
    → length text < npos
    → create_round text m ≡ value (m', some rest)
    → length rest < length text
unfolding create_round
create_round_shrinks text m m' rest fits h =
    let pos : ℕ = find text line_end in
    let (view, s1, h1) = >>=-eq-value (substr text 0 pos) _ h in
    let (entry, s2, h2) = >>=-eq-value (header_line view) _ h1 in
    let (t, s3, h3) = >>=-eq-value (substr text (add64 pos 2) npos) _ h2 in
    ground (arith, find_small text fits, length-substr text (add64 pos 2) npos s3, h3)

header_line-ne-diverge : (line : Bytes) → header_line line ≢ diverge
unfolding header_line substr
header_line-ne-diverge line h = ground arith

create_round-ne-diverge : (text : Bytes) (m : HeaderMap) → create_round text m ≢ diverge
unfolding create_round substr
create_round-ne-diverge text m h =
    ground (arith, header_line-ne-diverge (take (find text line_end) (drop 0 text)))

create_loop-ne-diverge :
    (fuel : ℕ) (text : Bytes) (m : HeaderMap)
    → length text < npos
    → length text ≤ fuel
    → create_loop fuel text m ≢ diverge
unfolding create_loop
create_loop-ne-diverge fuel [] m fits enough h = cc
create_loop-ne-diverge zero (c ∷ text) m fits enough h = absurd (omega arith)
create_loop-ne-diverge (suc fuel) (c ∷ text) m fits enough h =
    go (create_round (c ∷ text) m) (create_round-ne-diverge (c ∷ text) m)
      (λ m' rest. create_round_shrinks (c ∷ text) m m' rest fits)
      (λ rest m' k. create_loop-ne-diverge fuel rest m' (omega arith) (omega arith)) h
  where
    go :
        (r : Outcome (HeaderMap × Option Bytes))
        → r ≢ diverge
        → ((m' : HeaderMap) (rest : Bytes)
            → r ≡ value (m', some rest)
            → length rest < suc (length text))
        → ((rest : Bytes) (m' : HeaderMap)
            → length rest < suc (length text)
            → create_loop fuel rest m' ≢ diverge)
        → (r >>= λ n. elim n.1 [ none ↦ value n.0 | some rest ↦ create_loop fuel rest n.0 ])
          ≢ diverge
    go (value (m', none)) a b next e = cc
    go (value (m', some rest)) a b next e = next rest m' (b m' rest refl) e
    go (error code) a b next e = cc
    go terminate a b next e = cc
    go diverge a b next e = absurd (a refl)

-- The loop of `create` ends on every text that fits in memory: the fuel is enough.
pub create-ne-diverge : (text : Bytes) → length text < npos → create text ≢ diverge
unfolding create
create-ne-diverge text fits = create_loop-ne-diverge (length text) text [] fits (omega arith)

-- Whatever a round has read, its map is sorted if the map before it was.
create_round-IsSorted :
    (text : Bytes) (m m' : HeaderMap) (next : Option Bytes)
    → IsSorted m
    → create_round text m ≡ value (m', next)
    → IsSorted m'
unfolding create_round
create_round-IsSorted text m m' next s h =
    let pos : ℕ = find text line_end in
    let (view, s1, h1) = >>=-eq-value (substr text 0 pos) _ h in
    let (entry, s2, h2) = >>=-eq-value (header_line view) _ h1 in
    let (t, s3, h3) = >>=-eq-value (substr text (add64 pos 2) npos) _ h2 in
    let e : add entry.0 entry.1 m ≡ m' = ground arith in
    subst IsSorted e (add-IsSorted entry.0 entry.1 m s)

create_loop-IsSorted :
    (fuel : ℕ) (text : Bytes) (m : HeaderMap) {m' : HeaderMap}
    → IsSorted m
    → create_loop fuel text m ≡ value m'
    → IsSorted m'
unfolding create_loop
create_loop-IsSorted fuel [] m s h = subst IsSorted (value-injective h) s
create_loop-IsSorted zero (c ∷ text) m s h = cc
create_loop-IsSorted (suc fuel) (c ∷ text) m s h =
    let ((m', next), s1, h1) = >>=-eq-value (create_round (c ∷ text) m) _ h in
    go next m' _ (create_round-IsSorted (c ∷ text) m m' next s s1)
      (λ rest s'. create_loop-IsSorted fuel rest m' s') h1
  where
    go :
        (next : Option Bytes) (m' m'' : HeaderMap)
        → IsSorted m'
        → ((rest : Bytes) → IsSorted m' → create_loop fuel rest m' ≡ value m'' → IsSorted m'')
        → elim next [ none ↦ value m' | some rest ↦ create_loop fuel rest m' ] ≡ value m''
        → IsSorted m''
    go none m' m'' s more h = subst IsSorted (value-injective h) s
    go (some rest) m' m'' s more h = more rest s h

-- Every map that `create` returns is sorted, as the multimap keeps it.
create-IsSorted : (text : Bytes) {m : HeaderMap} → create text ≡ value m → IsSorted m
unfolding create
create-IsSorted text h = create_loop-IsSorted (length text) text [] tt h

-- A first line with no colon is refused, whatever follows it.
pub create_no_colon :
    (line rest : Bytes)
    → IsLine line
    → line ≢ []
    → Lacks b':' line
    → create (line ++ (crlf ++ rest)) ≡ error invalid_argument
unfolding create create_loop create_round find to_pos
create_no_colon [] rest is_line ne lacks = absurd (ne refl)
create_no_colon (c ∷ line) rest is_line ne lacks =
    rw (position-line (c ∷ line) rest is_line) (
      ground
        (arith, substr_prefix (c ∷ line) (crlf ++ rest), header_line_no_colon (c ∷ line) lacks))
