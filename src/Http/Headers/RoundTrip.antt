-- ===== src/Http/Headers/RoundTrip.antt =====
-- header_map.inl: `create` reads back what `serialize` writes, and what it returns is sorted.
use cppio.Common.{
  ℕ, zero, suc, ◌+◌, ◌≤◌, ◌<◌, ◌≡◌, refl, sym, ap, ◌∙◌, arith, false, none, some, [], ◌∷◌, ◌++◌,
  length, length-append, All, All-append, value, append_assoc, append-nil,
}
use cppio.Common.Text.{Bytes, npos, bytes_less}
use cppio.Common.Searches.{Lacks, IsLine, crlf}
use cppio.Http.Headers.{HeaderMap, add, serialize, create_round, create_loop, create}
use cppio.Http.Headers.Multimap.{IsSorted, NotBelow, add_last}
use cppio.Http.Headers.Lines.{create_round-line, create_round_last}

-- A header that one line can hold: no colon in the key, and no `\r\n` in the line.
abbrev pub header_text : Bytes → Bytes → Bytes
header_text key val = key ++ (b':' ∷ b' ' ∷ val)

abbrev pub IsHeader : Bytes × Bytes → Type 0
IsHeader (key, val) = Lacks b':' key × IsLine (header_text key val)

-- What `create` has read of the pairs of a text when it has read them all.
abbrev add_all : HeaderMap → HeaderMap → HeaderMap
add_all acc [] = acc
add_all acc ((key, val) ∷ m) = add_all (add key val acc) m

serialize-cons :
    (key val : Bytes) (m : HeaderMap)
    → serialize ((key, val) ∷ m) ≡ header_text key val ++ (crlf ++ serialize m)
unfolding serialize
serialize-cons key val m = rw append_assoc

length-serialize :
    (key val : Bytes) (m : HeaderMap)
    → length (serialize ((key, val) ∷ m)) ≡ length (header_text key val) + length (serialize m) + 2
length-serialize key val m =
    rw serialize-cons (omega (arith, length-append (header_text key val) (crlf ++ serialize m)))

-- One step of the loop on a text that is not empty.
create_loop_step :
    (fuel : ℕ) (text : Bytes) (m m' : HeaderMap) (rest : Bytes)
    → 0 < length text
    → create_round text m ≡ value (m', some rest)
    → create_loop (suc fuel) text m ≡ create_loop fuel rest m'
unfolding create_loop
create_loop_step fuel [] m m' rest h e = absurd (omega arith)
create_loop_step fuel (c ∷ text) m m' rest h e = rw e

create_loop_last :
    (fuel : ℕ) (text : Bytes) (m m' : HeaderMap)
    → 0 < length text
    → create_round text m ≡ value (m', none)
    → create_loop (suc fuel) text m ≡ value m'
unfolding create_loop
create_loop_last fuel [] m m' h e = absurd (omega arith)
create_loop_last fuel (c ∷ text) m m' h e = rw e

length_line_pos : (key val rest : Bytes) → 0 < length (header_text key val ++ rest)
length_line_pos key val rest =
    omega (arith, length-append (header_text key val) rest, length-append key (b':' ∷ b' ' ∷ val))

create_loop-serialize :
    (fuel : ℕ) (m acc : HeaderMap)
    → All IsHeader m
    → length (serialize m) < npos
    → length (serialize m) ≤ fuel
    → create_loop fuel (serialize m) acc ≡ value (add_all acc m)
create_loop-serialize fuel [] acc hs fits enough = unfold serialize create_loop in refl
create_loop-serialize zero ((key, val) ∷ m) acc hs fits enough =
    absurd (omega (arith, length-serialize key val m))
create_loop-serialize (suc fuel) ((key, val) ∷ m) acc (h, hs) fits enough =
    let size = length-serialize key val m in
    rw serialize-cons (
      create_loop_step fuel _ acc _ _ (length_line_pos key val _)
        (create_round-line key val b' ' h.0 acc (serialize m) h.1 (omega (arith, size)))
      ∙ create_loop-serialize fuel m (add key val acc) hs (omega (arith, size))
          (omega (arith, size)))

-- Every key of `acc` comes before every key of the map.
abbrev Precedes : HeaderMap → HeaderMap → Type 0
Precedes acc m = All (λ e. All (λ a. bytes_less e.0 a.0 ≡ false) acc) m

Precedes-concat :
    (acc : HeaderMap) (key val : Bytes) (m : HeaderMap)
    → Precedes acc m
    → NotBelow key m
    → Precedes (acc ++ (key, val) ∷ []) m
Precedes-concat acc key val [] h k = tt
Precedes-concat acc key val (e ∷ m) h k = (
  All-append (λ a. bytes_less e.0 a.0 ≡ false) acc ((key, val) ∷ []) h.0 (k.0, tt),
  Precedes-concat acc key val m h.1 k.1,
)

add_all-append : (m acc : HeaderMap) → IsSorted m → Precedes acc m → add_all acc m ≡ acc ++ m
add_all-append [] acc s p = sym (append-nil acc)
add_all-append ((key, val) ∷ m) acc s p = rw (add_last key val acc p.0) (
    add_all-append m (acc ++ (key, val) ∷ []) s.1 (Precedes-concat acc key val m p.1 s.0)
    ∙ append_assoc acc ((key, val) ∷ []) m)

Precedes-nil : (m : HeaderMap) → Precedes [] m
Precedes-nil [] = tt
Precedes-nil (e ∷ m) = (tt, Precedes-nil m)

-- Every map of writable headers is read back from its text, pair by pair and in order: no header is
-- lost, changed or moved.
pub create-serialize :
    (m : HeaderMap)
    → IsSorted m
    → All IsHeader m
    → length (serialize m) < npos
    → create (serialize m) ≡ value m
unfolding create
create-serialize m s hs fits =
    create_loop-serialize (length (serialize m)) m [] hs fits (omega arith)
    ∙ ap value (add_all-append m [] s (Precedes-nil m))

-- The text of a map that is not empty, without the `\r\n` at its end, as it stands in a message.
unfoldable pub joined : Bytes → Bytes → HeaderMap → Bytes
joined key val [] = header_text key val
joined key val ((j, w) ∷ m) = header_text key val ++ (crlf ++ joined j w m)

pub serialize-joined :
    (key val : Bytes) (m : HeaderMap) → serialize ((key, val) ∷ m) ≡ joined key val m ++ crlf
unfolding joined
serialize-joined key val [] = rw serialize-cons (unfold serialize in refl)
serialize-joined key val ((j, w) ∷ m) =
    serialize-cons key val ((j, w) ∷ m)
    ∙ ap (λ t. header_text key val ++ (crlf ++ t)) (serialize-joined j w m)
    ∙ sym (append_assoc (header_text key val) (crlf ++ joined j w m) crlf)

length-joined :
    (key val j w : Bytes) (m : HeaderMap)
    → length (joined key val ((j, w) ∷ m))
      ≡ length (header_text key val) + length (joined j w m) + 2
unfolding joined
length-joined key val j w m =
    omega (arith, length-append (header_text key val) (crlf ++ joined j w m))

create_loop-joined :
    (fuel : ℕ) (key val : Bytes) (m acc : HeaderMap)
    → All IsHeader ((key, val) ∷ m)
    → length (joined key val m) < npos
    → length (joined key val m) ≤ fuel
    → create_loop fuel (joined key val m) acc ≡ value (add_all acc ((key, val) ∷ m))
unfolding joined
create_loop-joined zero key val [] acc hs fits enough =
    absurd (omega (arith, length-append key (b':' ∷ b' ' ∷ val)))
create_loop-joined (suc fuel) key val [] acc (h, hs) fits enough =
    create_loop_last fuel _ acc _ (omega (arith, length-append key (b':' ∷ b' ' ∷ val)))
      (create_round_last key val b' ' h.0 acc h.1 fits)
create_loop-joined zero key val ((j, w) ∷ m) acc hs fits enough =
    absurd (omega (arith, length-joined key val j w m))
create_loop-joined (suc fuel) key val ((j, w) ∷ m) acc (h, hs) fits enough =
    let size = length-joined key val j w m in
    create_loop_step fuel _ acc _ _ (length_line_pos key val _)
      (create_round-line key val b' ' h.0 acc (joined j w m) h.1 (omega (arith, size)))
    ∙ create_loop-joined fuel j w m (add key val acc) hs (omega (arith, size)) (omega (arith, size))

-- So is a map whose text has lost its last `\r\n`.
pub create-joined :
    (key val : Bytes) (m : HeaderMap)
    → IsSorted ((key, val) ∷ m)
    → All IsHeader ((key, val) ∷ m)
    → length (joined key val m) < npos
    → create (joined key val m) ≡ value ((key, val) ∷ m)
unfolding create
create-joined key val m s hs fits =
    create_loop-joined (length (joined key val m)) key val m [] hs fits (omega arith)
    ∙ ap value (add_all-append ((key, val) ∷ m) [] s (Precedes-nil ((key, val) ∷ m)))
