-- ===== src/Network/Ip/Compressed.antt =====
-- ip.cpp: the text that `ip::v6::to_string` writes, against a description of it that does not count indices.
use cppio.Common.{
  ℕ, zero, suc, ◌+◌, ◌/◌, ◌%◌, ◌<◌, ◌≤◌, ◌≡◌, refl, sym, ap, ◌∙◌, arith, List, [], ◌∷◌, ◌++◌,
  length, drop, take, length-drop, length-take, get_or, ltb, leb, ◌==◌, not, ◌&&◌, ◌||◌, Bool-cases,
  inl, inr, ◌⊎◌, true, false, if◌then◌else◌, append_assoc, append-nil, drop_all,
}
use cppio.Common.Text.{Bytes}
use cppio.Network.Ip.V6
use cppio.Network.Ip.V6.{V6, zeros, longest, hex_digits, hex_digit, write, body}
use cppio.Network.Ip.LongestRun.{IsLongest, longest_run}

abbrev pub hex : ℕ → Bytes
hex w = hex_digits 4 w []

-- Words in hexadecimal, with a colon between any two.
abbrev pub joined : List ℕ → Bytes
joined [] = []
joined (w ∷ []) = hex w
joined (w ∷ v ∷ ws) = hex w ++ b':' ∷ joined (v ∷ ws)

-- The text of the words, of which the run of `n` zeros at index `z` is left out if it has two at least.
abbrev pub compressed : List ℕ → ℕ × ℕ → Bytes
compressed ws (n, z) =
    if ltb 1 n then joined (take z ws) ++ b':' ∷ b':' ∷ joined (drop (z + n) ws) else joined ws

hex_digits-append :
    (fuel n : ℕ) (out rest : Bytes)
    → hex_digits fuel n (out ++ rest) ≡ hex_digits fuel n out ++ rest
unfolding hex_digits
hex_digits-append zero n out rest = refl
hex_digits-append (suc fuel) n out rest = elim (Bool-cases (ltb n 16)) [
  | inl last ↦ rw last refl
  | inr more ↦ rw more (hex_digits-append fuel (n / 16) (hex_digit (n % 16) ∷ out) rest)
]

drop-get_or : (ws : List ℕ) (i : ℕ) → i < length ws → drop i ws ≡ get_or ws i 0 ∷ drop (suc i) ws
drop-get_or [] i h = absurd (omega (arith, h))
drop-get_or (w ∷ ws) zero h = refl
drop-get_or (w ∷ ws) (suc i) h = drop-get_or ws i (omega (arith, h))

joined-cons : (w : ℕ) (ws : List ℕ) → 0 < length ws → joined (w ∷ ws) ≡ hex w ++ b':' ∷ joined ws
joined-cons w [] h = absurd (omega (arith, h))
joined-cons w (v ∷ ws) h = refl

module _ (ws : List ℕ) (eight : length ws ≡ 8) (n z : ℕ) where
  write_step :
      (fuel i : ℕ)
      → leb 8 i ≡ false
      → (i == z && ltb 1 n) ≡ false
      → write (suc fuel) ws (n, z) i
        ≡ hex (get_or ws i 0)
          ++ (if ltb i 7 && (not (suc i == z) || leb n 1)
              then b':' ∷ write fuel ws (n, z) (suc i)
              else write fuel ws (n, z) (suc i))
  unfolding write
  write_step fuel i within single = rw (within, single) (hex_digits-append 4 (get_or ws i 0) [] _)

  write_run :
      (fuel i : ℕ)
      → i ≡ z
      → leb 8 i ≡ false
      → 1 < n
      → write (suc fuel) ws (n, z) i ≡ b':' ∷ b':' ∷ write fuel ws (n, z) (i + n)
  unfolding write
  write_run fuel i same within long =
      let run : (i == z && ltb 1 n) ≡ true = ground (arith, same, long) in rw (within, run) refl

  write_end : (fuel i : ℕ) → leb 8 i ≡ true → write fuel ws (n, z) i ≡ []
  unfolding write
  write_end zero i past = refl
  write_end (suc fuel) i past = rw past refl

  -- The words from index `i` on, of which the first is written before the others.
  joined-drop :
      (i : ℕ) → i < 7 → joined (drop i ws) ≡ hex (get_or ws i 0) ++ b':' ∷ joined (drop (suc i) ws)
  joined-drop i h =
      ap joined (drop-get_or ws i (omega (arith, h, eight)))
      ∙ joined-cons (get_or ws i 0) (drop (suc i) ws)
          (omega (arith, length-drop (suc i) ws, h, eight))

  joined_last : (i : ℕ) → i ≡ 7 → joined (drop i ws) ≡ hex (get_or ws i 0)
  joined_last i h =
      ap joined (drop-get_or ws i (omega (arith, h, eight)))
      ∙ ap (λ d. joined (get_or ws i 0 ∷ d)) (drop_all (suc i) ws (omega (arith, h, eight)))

  -- Behind the run, and where no run is left out.
  write_rest :
      (fuel i : ℕ) → 8 ≤ fuel + i → (z < i) ⊎ (n ≤ 1) → write fuel ws (n, z) i ≡ joined (drop i ws)
  write_rest zero i h b =
      write_end zero i (ground (arith, h))
      ∙ sym (ap joined (drop_all i ws (omega (arith, h, eight))))
  write_rest (suc fuel) i h b = elim (Bool-cases (leb 8 i)) [
    | inl past ↦
        let long : length ws ≤ i = ground (arith, past, eight) in
        write_end (suc fuel) i past ∙ sym (ap joined (drop_all i ws long))
    | inr within ↦
        let single : (i == z && ltb 1 n) ≡ false = ground (arith, b) in
        let at : i < length ws = ground (arith, within, eight) in
        let next = write_rest fuel (suc i) (omega (arith, h)) (after b) in
        elim (Bool-cases (ltb i 7)) [
          | inl more ↦
              let colon : (ltb i 7 && (not (suc i == z) || leb n 1)) ≡ true =
                ground (arith, more, b) in
              write_step fuel i within single
              ∙ rw (colon, next) (sym (joined-drop i (ground (arith, more))))
          | inr last ↦
              let seven : i ≡ 7 = ground (arith, last, within) in
              let none_left : write fuel ws (n, z) (suc i) ≡ [] =
                next ∙ ap joined (drop_all (suc i) ws (omega (arith, seven, eight))) in
              write_step fuel i within single
              ∙ rw (last, none_left) (append-nil (hex (get_or ws i 0)) ∙ sym (joined_last i seven))
        ]
  ]
    where
      after : (z < i) ⊎ (n ≤ 1) → (z < suc i) ⊎ (n ≤ 1)
      after (inl lt) = inl (omega (arith, lt))
      after (inr le) = inr le

  -- Up to the run, which is `m` words ahead.
  write_before :
      (fuel m i : ℕ)
      → 8 ≤ fuel + i
      → 1 < n
      → z ≡ i + m
      → z + n ≤ 8
      → write fuel ws (n, z) i
        ≡ joined (take m (drop i ws)) ++ b':' ∷ b':' ∷ joined (drop (z + n) ws)
  write_before zero m i h k e f = absurd (omega (arith, h, k, e, f))
  write_before (suc fuel) zero i h k e f =
      write_run fuel i (omega (arith, e)) (ground (arith, k, e, f)) k
      ∙ ap (λ t. b':' ∷ b':' ∷ t)
          (write_rest fuel (i + n) (omega (arith, h, k)) (inl (omega (arith, k, e)))
            ∙ ap (λ j. joined (drop j ws)) (omega (arith, e)))
  write_before (suc fuel) (suc zero) i h k e f =
      let within : leb 8 i ≡ false = ground (arith, k, e, f) in
      let single : (i == z && ltb 1 n) ≡ false = ground (arith, e) in
      let colon : (ltb i 7 && (not (suc i == z) || leb n 1)) ≡ false = ground (arith, k, e) in
      let next = write_before fuel zero (suc i) (omega (arith, h)) k (omega (arith, e)) f in
      let first : take 1 (drop i ws) ≡ get_or ws i 0 ∷ [] =
        ap (take 1) (drop-get_or ws i (omega (arith, eight, k, e, f))) in
      write_step fuel i within single ∙ rw (colon, next, first) refl
  write_before (suc fuel) (suc (suc m)) i h k e f =
      let within : leb 8 i ≡ false = ground (arith, k, e, f) in
      let single : (i == z && ltb 1 n) ≡ false = ground (arith, e) in
      let colon : (ltb i 7 && (not (suc i == z) || leb n 1)) ≡ true = ground (arith, k, e, f) in
      let next = write_before fuel (suc m) (suc i) (omega (arith, h)) k (omega (arith, e)) f in
      let words : joined (take (suc (suc m)) (drop i ws))
          ≡ hex (get_or ws i 0) ++ b':' ∷ joined (take (suc m) (drop (suc i) ws)) =
        ap (λ d. joined (take (suc (suc m)) d)) (drop-get_or ws i (omega (arith, eight, k, e, f)))
        ∙ joined-cons (get_or ws i 0) (take (suc m) (drop (suc i) ws)) (
            omega (
              arith,
              length-take (suc m) (drop (suc i) ws),
              length-drop (suc i) ws,
              eight,
              k,
              e,
              f,
            )) in
      write_step fuel i within single
      ∙ rw (colon, next, words)
          (sym
            (append_assoc (hex (get_or ws i 0)) (b':' ∷ joined (take (suc m) (drop (suc i) ws))) _))

zeros-le-length : (ws : List ℕ) → zeros ws ≤ length ws
unfolding zeros
zeros-le-length [] = omega arith
zeros-le-length (w ∷ ws) = ground (arith, zeros-le-length ws)

run_within :
    (ws : List ℕ) (r : ℕ × ℕ) → length ws ≡ 8 → IsLongest 0 ws (0, 0) r → 1 < r.0 → r.1 + r.0 ≤ 8
run_within ws r eight q long = elim q.0 [
  | inl same ↦ absurd (let e = ap (λ p. p.0) same in omega (arith, e, long))
  | inr (k, at, run) ↦
      omega (arith, at, run, zeros-le-length (drop k ws), length-drop k ws, eight, long)
]

body-compressed :
    (ws : List ℕ) (r : ℕ × ℕ)
    → length ws ≡ 8
    → IsLongest 0 ws (0, 0) r
    → write 8 ws r 0 ≡ compressed ws r
body-compressed ws (n, z) eight q = elim (Bool-cases (ltb 1 n)) [
  | inl long ↦
      let lt : 1 < n = ground (arith, long) in
      rw long (
        write_before ws eight n z 8 z 0 (omega arith) lt (omega arith)
          (run_within ws (n, z) eight q lt))
  | inr short ↦
      let le : n ≤ 1 = ground (arith, short) in
      rw short (write_rest ws eight n z 8 0 (omega arith) (inr le))
]

-- The text of an IPv6 address is its eight words in hexadecimal with colons between them, in brackets; if two
-- words in a row or more are zero, a run of zeros stands as `::`, and no run of zeros in the address is longer.
pub to_string-compressed :
    (ip : V6)
    → length ip.word ≡ 8
    → (r : ℕ × ℕ) × IsLongest 0 ip.word (0, 0) r
      × (V6.to_string ip ≡ b'[' ∷ (compressed ip.word r ++ b']' ∷ []))
unfolding V6.to_string body
to_string-compressed ip eight =
    let r = longest 8 0 ip.word (0, 0) in
    let q : IsLongest 0 ip.word (0, 0) r = longest_run ip.word (omega (arith, eight)) in
    (r, q, ap (λ t. b'[' ∷ (t ++ b']' ∷ [])) (body-compressed ip.word r eight q))
