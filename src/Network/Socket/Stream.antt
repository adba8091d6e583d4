-- ===== src/Network/Socket/Stream.antt =====
-- network/posix/tcp_socket.cpp, tcp_socket.cpp: what the loops of `read`, `write` and `read_exactly` give.
use cppio.Network.Socket.Exactly.{sum_taken}
use cppio.Common.{
  ℕ, ◌+◌, ◌≤◌, ◌≡◌, refl, sym, ap, arith, Bool, true, List, [], ◌∷◌, ◌++◌, map, none, some, Outcome,
  value, error, terminate, diverge, ◌==◌, length, take, drop, append-nil, All, Bool-cases, inl, inr,
  subst, drop_all, append-take-drop_at, false, ◌∙◌,
}
use cppio.Common.Text.{Bytes}
use cppio.Network.Socket.{Transfer, moved, taken, is_failed, read, read_exactly, write}

-- `send` takes no more than it is given.
abbrev IsHonest : Bytes → ℕ → List (Transfer × Bool) → Type 0
IsHonest text sent [] = Unit
IsHonest text sent ((answer, success) ∷ rest) =
    (sent + taken answer ≤ length text) × IsHonest text (sent + taken answer) rest

write_from :
    (text : Bytes) (sent : ℕ) (answers : List (Transfer × Bool)) (v : ℕ)
    → sent ≤ length text
    → IsHonest text sent answers
    → (write text sent answers).1 ≡ some (value v)
    → ((write text sent answers).0 ≡ drop sent text) × (v ≡ length text)
unfolding write
write_from text sent [] v h k e = ground (arith, drop_all sent text, h, e)
write_from text sent ((answer, success) ∷ rest) v h k e =
    let n = taken answer in
    let cut : take n (drop sent text) ++ drop (sent + n) text ≡ drop sent text =
      append-take-drop_at n sent text in
    let next = write_from text (sent + n) rest v k.0 k.1 in
    ground (
      arith,
      cut,
      next,
      drop_all sent text,
      drop_all (sent + n) text,
      append-nil (take n (drop sent text)),
      h,
      e,
      k.0,
    )

-- `write` ends with a size only when the whole text has been sent, once and in order, and then gives the size
-- of the text; this holds for every sequence of short writes and waits.
write_whole :
    (text : Bytes) (answers : List (Transfer × Bool)) (v : ℕ)
    → IsHonest text 0 answers
    → (write text 0 answers).1 ≡ some (value v)
    → ((write text 0 answers).0 ≡ text) × (v ≡ length text)
write_whole text answers v k e = write_from text 0 answers v (omega arith) k e

-- While `recv` answers zero, which is what it does when the peer has closed the connection, and epoll reports
-- the descriptor as ready, `read` never ends, however often it is resumed.
read_closed :
    (answers : List (Transfer × Bool))
    → All (λ a. a ≡ (moved 0, true)) answers
    → read answers ≡ none
unfolding read
read_closed [] h = refl
read_closed ((answer, success) ∷ rest) h =
    subst (λ a. read (a ∷ rest) ≡ none) (sym h.0) (read_closed rest h.1)

abbrev pub sum : List ℕ → ℕ
sum [] = 0
sum (n ∷ ns) = n + sum ns

-- An answer of `read_exactly` that is no error is always zero, not a size; it is given when the sizes that the
-- reads have answered add up to what was asked for.
read_exactly_value :
    (size total : ℕ) (answers : List (Outcome ℕ)) (v : ℕ)
    → read_exactly size total answers ≡ some (value v)
    → (v ≡ 0)
      × (ns : List ℕ) × (rest : List (Outcome ℕ)) × (answers ≡ map value ns ++ rest)
      × (total + sum ns ≡ size)
unfolding read_exactly
read_exactly_value size total [] v h = (ground (arith, h), [], [], refl, ground (arith, h))
read_exactly_value size total (value n ∷ rest) v h = elim (Bool-cases (total == size)) [
  | inl whole ↦ (ground (arith, h, whole), [], value n ∷ rest, refl, ground (arith, whole))
  | inr more ↦
      let e : read_exactly size (total + n) rest ≡ some (value v) =
        unfold read_exactly in ground (arith, h, more) in
      let (z, ns, left, split, total_size) = read_exactly_value size (total + n) rest v e in
      (z, n ∷ ns, left, ap (◌∷◌ (value n)) split, omega (arith, total_size))
]
read_exactly_value size total (error x ∷ rest) v h = elim (Bool-cases (total == size)) [
  | inl whole ↦ (ground (arith, h, whole), [], error x ∷ rest, refl, ground (arith, whole))
  | inr more ↦ absurd (ground (arith, h, more))
]
read_exactly_value size total (terminate ∷ rest) v h = elim (Bool-cases (total == size)) [
  | inl whole ↦ (ground (arith, h, whole), [], terminate ∷ rest, refl, ground (arith, whole))
  | inr more ↦ absurd (ground (arith, h, more))
]
read_exactly_value size total (diverge ∷ rest) v h = elim (Bool-cases (total == size)) [
  | inl whole ↦ (ground (arith, h, whole), [], diverge ∷ rest, refl, ground (arith, whole))
  | inr more ↦ absurd (ground (arith, h, more))
]

write_nothing :
    (text : Bytes) (answers : List (Transfer × Bool))
    → write text (length text) answers ≡ ([], some (value (length text)))
unfolding write
write_nothing text [] = ground arith
write_nothing text ((answer, success) ∷ rest) = ground arith

write_parts :
    (text : Bytes) (sent : ℕ) (answers more : List (Transfer × Bool))
    → sent + sum_taken answers ≡ length text
    → All (λ a. (is_failed a.0 ≡ false) × (a.1 ≡ true)) answers
    → write text sent (answers ++ more) ≡ (drop sent text, some (value (length text)))
unfolding write
write_parts text sent [] more whole h =
    let e : sent ≡ length text = omega (arith, whole) in
    ap (λ k. write text k more) e
    ∙ write_nothing text more
    ∙ ap (λ (b : Bytes). (b, some (value (length text))))
        (sym (drop_all sent text (omega (arith, e))))
write_parts text sent ((answer, success) ∷ rest) more whole h =
    let n = taken answer in
    let cut : take n (drop sent text) ++ drop (sent + n) text ≡ drop sent text =
      append-take-drop_at n sent text in
    let next = write_parts text (sent + n) rest more (omega (arith, whole)) h.1 in
    ground (
      arith,
      cut,
      next,
      drop_all sent text,
      drop_all (sent + n) text,
      append-nil (take n (drop sent text)),
      whole,
      h.0,
    )

-- Whatever the sizes in which `send` takes the text, as long as they add up to its size, and however often it
-- answers in between that the call would block: if no call fails and each wait succeeds, then `write` ends with
-- the size of the text and the whole text has gone out, once and in order, whatever further calls would answer.
pub write_total :
    (text : Bytes) (answers more : List (Transfer × Bool))
    → sum_taken answers ≡ length text
    → All (λ a. (is_failed a.0 ≡ false) × (a.1 ≡ true)) answers
    → write text 0 (answers ++ more) ≡ (text, some (value (length text)))
write_total text answers more whole h = write_parts text 0 answers more (omega (arith, whole)) h
