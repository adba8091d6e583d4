-- ===== src/Network/Socket/Exactly.antt =====
-- tcp_socket.cpp with network/posix/tcp_socket.cpp: `read_exactly` with the buffer that its reads fill. `stream` are the
-- bytes that the peer sends, of which each call of `recv` gives the next.
use cppio.Common.{
  terminate, diverge, ℕ, zero, suc, List, [], ◌∷◌, ◌++◌, Option, none, some, value, error, network,
  closed, take, drop, refl, length, Outcome, Bool, ◌≡◌, if◌then◌else◌, arith, ◌==◌, ◌+◌, true, ◌≤◌,
  length-take, All, ap, ◌∙◌, false, sym, subst,
}
use cppio.Common.Text.{Bytes}
use cppio.Network.Socket.{
  Transfer, moved, would_block, failed, read, read_exactly, taken, is_failed,
}

-- What `recv` does to a buffer from an offset on.
unfoldable pub write_at : ℕ → Bytes → Bytes → Bytes
write_at zero chunk buffer = chunk ++ drop (length chunk) buffer
write_at (suc offset) chunk [] = []
write_at (suc offset) chunk (b ∷ buffer) = b ∷ write_at offset chunk buffer

-- `tcp_socket::read_exactly` over the answers of `recv`, each with what epoll reports of the wait behind it: the answer
-- and the buffer.
unfoldable pub fill_exactly :
    Bytes → ℕ → ℕ → List (Transfer × Bool) → Bytes → Option (Outcome ℕ) × Bytes
fill_exactly stream size total [] buffer = (if total == size then some (value 0) else none, buffer)
fill_exactly stream size total ((failed, success) ∷ rest) buffer =
    (if total == size then some (value 0) else some (error (network closed)), buffer)
fill_exactly stream size total ((moved (suc n), success) ∷ rest) buffer =
    let chunk = take (suc n) (drop total stream) in
    let next = fill_exactly stream size (total + suc n) rest (write_at total chunk buffer) in
    if total == size then (some (value 0), buffer) else next
fill_exactly stream size total ((moved zero, success) ∷ rest) buffer =
    let again = fill_exactly stream size total rest buffer in
    if total == size
    then (some (value 0), buffer)
    else if success
    then again
    else (some (error (network closed)), buffer)
fill_exactly stream size total ((would_block, success) ∷ rest) buffer =
    let again = fill_exactly stream size total rest buffer in
    if total == size
    then (some (value 0), buffer)
    else if success
    then again
    else (some (error (network closed)), buffer)

-- The answers of the reads that are made of the answers of `recv`.
abbrev pub reads : List (Transfer × Bool) → List (Outcome ℕ)
reads [] = []
reads ((failed, success) ∷ rest) = error (network closed) ∷ reads rest
reads ((moved (suc n), success) ∷ rest) = value (suc n) ∷ reads rest
reads ((moved zero, success) ∷ rest) =
    let again = reads rest in if success then again else error (network closed) ∷ again
reads ((would_block, success) ∷ rest) =
    let again = reads rest in if success then again else error (network closed) ∷ again

abbrev pub first : List (Outcome ℕ) → Option (Outcome ℕ)
first [] = none
first (o ∷ os) = some o

-- The first of them is that of `read`.
first-reads : (answers : List (Transfer × Bool)) → first (reads answers) ≡ read answers
unfolding read
first-reads [] = refl
first-reads ((failed, success) ∷ rest) = refl
first-reads ((moved (suc n), success) ∷ rest) = refl
first-reads ((moved zero, success) ∷ rest) = ground (arith, first-reads rest)
first-reads ((would_block, success) ∷ rest) = ground (arith, first-reads rest)

read_exactly_whole :
    (size total : ℕ) (os : List (Outcome ℕ))
    → (total == size) ≡ true
    → read_exactly size total os ≡ some (value 0)
unfolding read_exactly
read_exactly_whole size total [] h = rw h refl
read_exactly_whole size total (value n ∷ os) h = rw h refl
read_exactly_whole size total (error e ∷ os) h = rw h refl
read_exactly_whole size total (terminate ∷ os) h = rw h refl
read_exactly_whole size total (diverge ∷ os) h = rw h refl

fill_exactly-read_exactly :
    (stream : Bytes) (size total : ℕ) (answers : List (Transfer × Bool)) (buffer : Bytes)
    → (fill_exactly stream size total answers buffer).0 ≡ read_exactly size total (reads answers)
unfolding fill_exactly read_exactly
fill_exactly-read_exactly stream size total [] buffer = refl
fill_exactly-read_exactly stream size total ((failed, success) ∷ rest) buffer = refl
fill_exactly-read_exactly stream size total ((moved (suc n), success) ∷ rest) buffer =
    let chunk = take (suc n) (drop total stream) in
    let next =
      fill_exactly-read_exactly stream size (total + suc n) rest (write_at total chunk buffer) in
    ground (arith, next)
fill_exactly-read_exactly stream size total ((moved zero, success) ∷ rest) buffer = ground (
  arith,
  fill_exactly-read_exactly stream size total rest buffer,
  read_exactly_whole size total (reads rest),
)
fill_exactly-read_exactly stream size total ((would_block, success) ∷ rest) buffer = ground (
  arith,
  fill_exactly-read_exactly stream size total rest buffer,
  read_exactly_whole size total (reads rest),
)

-- `recv` gives no more than it is asked for.
abbrev pub IsFitting : ℕ → ℕ → List (Transfer × Bool) → Type 0
IsFitting size total [] = Unit
IsFitting size total ((answer, success) ∷ rest) =
    (total + taken answer ≤ size) × IsFitting size (total + taken answer) rest

abbrev pub sum_taken : List (Transfer × Bool) → ℕ
sum_taken [] = 0
sum_taken ((answer, success) ∷ rest) = taken answer + sum_taken rest

-- The next chunk of the stream, written behind those before.
write_at_next :
    (n total : ℕ) (stream buffer : Bytes)
    → total + n ≤ length stream
    → total + n ≤ length buffer
    → write_at total (take n (drop total stream)) (take total stream ++ drop total buffer)
      ≡ take (total + n) stream ++ drop (total + n) buffer
unfolding write_at
write_at_next n zero stream buffer h k =
    ap (λ m. take n stream ++ drop m buffer) (long ∙ same)
    ∙ ap (λ m. take m stream ++ drop (0 + n) buffer) same
  where
    long : length (take n stream) ≡ n
    long = omega (arith, length-take n stream, h)

    same : n ≡ 0 + n
    same = omega arith
write_at_next n (suc total) [] buffer h k = absurd (omega (arith, h))
write_at_next n (suc total) (x ∷ stream) [] h k = absurd (omega (arith, k))
write_at_next n (suc total) (x ∷ stream) (y ∷ buffer) h k =
    ap (◌∷◌ x) (write_at_next n total stream buffer (omega (arith, h)) (omega (arith, k)))
    ∙ ap (λ m. take m (x ∷ stream) ++ drop m (y ∷ buffer)) same
  where
    same : suc (total + n) ≡ suc total + n
    same = omega arith

add_zero : (n : ℕ) → n + 0 ≡ n
add_zero n = omega arith

fill_from :
    (stream : Bytes) (size total : ℕ) (answers : List (Transfer × Bool)) (old : Bytes)
    → size ≤ length stream
    → size ≤ length old
    → total ≤ size
    → size ≤ total + sum_taken answers
    → IsFitting size total answers
    → All (λ a. (is_failed a.0 ≡ false) × (a.1 ≡ true)) answers
    → fill_exactly stream size total answers (take total stream ++ drop total old)
      ≡ (some (value 0), take size stream ++ drop size old)
unfolding fill_exactly taken is_failed
fill_from stream size total [] old h k le enough fits ok =
    let same : total ≡ size = omega (arith, le, enough) in ground (arith, same)
fill_from stream size total ((failed, success) ∷ rest) old h k le enough fits ok =
    absurd (cc ok.0.0)
fill_from stream size total ((moved (suc n), success) ∷ rest) old h k le enough fits ok =
    let written =
      write_at_next (suc n) total stream old (omega (arith, fits.0, h))
        (omega (arith, fits.0, k)) in
    let next =
      fill_from stream size (total + suc n) rest old h k fits.0 (omega (arith, enough)) fits.1
        ok.1 in
    let apart : (total == size) ≡ false = ground (arith, fits.0) in rw (apart, written) next
fill_from stream size total ((moved zero, success) ∷ rest) old h k le enough fits ok =
    let fits_rest = subst (λ m. IsFitting size m rest) (add_zero total) fits.1 in
    let next = fill_from stream size total rest old h k le (omega (arith, enough)) fits_rest ok.1 in
    ground (arith, next, ok.0.1)
fill_from stream size total ((would_block, success) ∷ rest) old h k le enough fits ok =
    let fits_rest = subst (λ m. IsFitting size m rest) (add_zero total) fits.1 in
    let next = fill_from stream size total rest old h k le (omega (arith, enough)) fits_rest ok.1 in
    ground (arith, next, ok.0.1)

-- If `recv` gives no more than it is asked for, and no failure, every wait succeeds, and the answers have as many bytes
-- as are asked for, then `read_exactly` ends with zero, and the first `size` bytes of the stream stand in the
-- buffer, in order, in however many pieces they came and however often it had to wait; what stood behind them
-- still does. Its answer is that of its model over the answers of its reads.
pub fill_exactly_fills :
    (stream : Bytes) (size : ℕ) (answers : List (Transfer × Bool)) (buffer : Bytes)
    → size ≤ length stream
    → size ≤ length buffer
    → size ≤ sum_taken answers
    → IsFitting size 0 answers
    → All (λ a. (is_failed a.0 ≡ false) × (a.1 ≡ true)) answers
    → (fill_exactly stream size 0 answers buffer
        ≡ (some (value 0), take size stream ++ drop size buffer))
      × (read_exactly size 0 (reads answers) ≡ some (value 0))
fill_exactly_fills stream size answers buffer h k enough fits ok =
    let fills =
      fill_from stream size 0 answers buffer h k (omega arith) (omega (arith, enough)) fits ok in
    (fills, sym (fill_exactly-read_exactly stream size 0 answers buffer) ∙ ap (λ x. x.0) fills)
