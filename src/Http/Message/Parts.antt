-- ===== src/Http/Message/Parts.antt =====
-- request.inl, response.inl: the parts of a well-formed message are found.
use cppio.Http.Headers.{HeaderMap}
use cppio.Http.Headers.RoundTrip.{joined, header_text, IsHeader}
use cppio.Common.{
  ℕ, suc, ◌+◌, ◌<◌, ◌≡◌, refl, sym, arith, false, some, [], ◌∷◌, ◌++◌, length, length-append, value,
  append_assoc, All, ◌∙◌, ap, error, invalid_argument,
}
use cppio.Common.Text.{
  Bytes, npos, add64, sub64, substr, find_first_of, position, starts_with, find, to_pos,
}
use cppio.Common.Searches.{
  Lacks, IsLine, crlf, find_first_of-append, find_first_of-append_from, substr_prefix,
  substr_suffix, substr_middle, find-line,
}
use cppio.Http.{block_end}
use cppio.Http.Message.{split_line, split_head}

-- Three parts with a blank between them are found again; the last may hold blanks.
pub split_line_lem :
    (a b c : Bytes)
    → Lacks b' ' a
    → Lacks b' ' b
    → length a + length b + length c + 2 < npos
    → split_line (a ++ (b' ' ∷ (b ++ (b' ' ∷ c)))) ≡ value (a, b, c)
unfolding split_line
split_line_lem a b c ha hb fits =
    let sp : Bytes = b' ' ∷ [] in
    let text : Bytes = a ++ (b' ' ∷ (b ++ (b' ' ∷ c))) in
    let behind : text ≡ (a ++ sp) ++ (b ++ b' ' ∷ c) = sym (append_assoc a sp _) in
    let size : length (a ++ sp) ≡ length a + 1 = omega (arith, length-append a sp) in
    let first : find_first_of text b' ' 0 ≡ length a = find_first_of-append b' ' a _ ha in
    let second : find_first_of text b' ' (length a + 1) ≡ length a + 1 + length b =
      rw behind (find_first_of-append_from b' ' (length a + 1) (a ++ sp) b c (sym size) hb) in
    let e₁ : add64 (length a) 1 ≡ length a + 1 = omega arith in
    let e₂ : sub64 (sub64 (length a + 1 + length b) (length a)) 1 ≡ length b = omega arith in
    let e₃ : add64 (length a + 1 + length b) 1 ≡ length ((a ++ sp) ++ (b ++ sp)) =
      omega (arith, size, length-append (a ++ sp) (b ++ sp), length-append b sp) in
    let p₁ : substr text 0 (length a) ≡ value a = substr_prefix a _ in
    let p₂ : substr text (length a + 1) (length b) ≡ value b =
      rw behind (substr_middle (length a + 1) (a ++ sp) b (b' ' ∷ c) (sym size)) in
    let p₃ : substr text (length ((a ++ sp) ++ (b ++ sp))) npos ≡ value c =
      rw (behind, ← append_assoc b sp c)
        (substr_suffix _ npos (a ++ sp) (b ++ sp) c refl (omega arith)) in
    rw (first, e₁, second, e₂, e₃, p₁, p₂, p₃)

-- The blank line is not inside a line, nor where a line ends and another begins.
position_block-line :
    (xs ys : Bytes) (i : ℕ)
    → IsLine xs
    → position block_end (crlf ++ ys) ≡ some i
    → position block_end (xs ++ (crlf ++ ys)) ≡ some (length xs + i)
unfolding position starts_with
position_block-line [] ys i h e = ground arith
position_block-line (x ∷ []) ys i h e = ground arith
position_block-line (x ∷ y ∷ xs) ys i h e = ground (arith, position_block-line (y ∷ xs) ys i)

starts_with-line : (xs ys : Bytes) → IsLine xs → 1 < length xs → starts_with crlf (xs ++ ys) ≡ false
unfolding position starts_with
starts_with-line [] ys h k = absurd (omega arith)
starts_with-line (x ∷ []) ys h k = absurd (omega arith)
starts_with-line (x ∷ y ∷ xs) ys h k = ground arith

position_block-crlf :
    (ys : Bytes) (i : ℕ)
    → starts_with crlf ys ≡ false
    → position block_end ys ≡ some i
    → position block_end (crlf ++ ys) ≡ some (suc (suc i))
unfolding position starts_with
position_block-crlf [] i h e = ground arith
position_block-crlf (x ∷ []) i h e = ground arith
position_block-crlf (x ∷ y ∷ ys) i h e = ground arith

header_text-long : (key val : Bytes) → 1 < length (header_text key val)
header_text-long key val = omega (arith, length-append key (b':' ∷ b' ' ∷ val))

joined-starts :
    (key val : Bytes) (m : HeaderMap) (rest : Bytes)
    → IsHeader (key, val)
    → starts_with crlf (joined key val m ++ rest) ≡ false
unfolding joined
joined-starts key val [] rest h =
    starts_with-line (header_text key val) rest h.1 (header_text-long key val)
joined-starts key val ((j, w) ∷ m) rest h =
    rw (append_assoc (header_text key val) (crlf ++ joined j w m) rest)
      (starts_with-line (header_text key val) _ h.1 (header_text-long key val))

-- The first blank line of a message stands behind its headers, whatever the content is.
position_block-joined :
    (key val : Bytes) (m : HeaderMap) (content : Bytes)
    → All IsHeader ((key, val) ∷ m)
    → position block_end (joined key val m ++ (block_end ++ content))
      ≡ some (length (joined key val m))
unfolding joined
position_block-joined key val [] content (h, hs) =
    position_block-line (header_text key val) (crlf ++ content) 0 h.1
      (unfold position starts_with in refl)
    ∙ ap some (omega arith)
position_block-joined key val ((j, w) ∷ m) content (h, hs) =
    let line = header_text key val in
    let tail : Bytes = joined j w m ++ (block_end ++ content) in
    rw (append_assoc line (crlf ++ joined j w m) (block_end ++ content)) (
      position_block-line line tail _ h.1 (
        position_block-crlf tail _ (joined-starts j w m _ hs.0)
          (position_block-joined j w m content hs))
      ∙ ap some (omega (arith, length-append line (crlf ++ joined j w m))))

-- A message with headers: its head, and the whole.
module _ (line key val : Bytes) (m : HeaderMap) where
  abbrev pub head_text : Bytes
  head_text = line ++ (crlf ++ joined key val m)

  abbrev pub message_text : Bytes → Bytes
  message_text content = line ++ (crlf ++ (joined key val m ++ (block_end ++ content)))

module _ (line key val : Bytes) (m : HeaderMap) (content : Bytes) (is_line : IsLine line)
    (headers : All IsHeader ((key, val) ∷ m)) where
  abbrev head : Bytes
  head = head_text line key val m

  abbrev message : Bytes
  message = message_text line key val m content

  message-split : message ≡ head ++ (block_end ++ content)
  message-split = sym (append_assoc line (crlf ++ joined key val m) (block_end ++ content))

  find-block : find message block_end ≡ length head
  unfolding find to_pos
  find-block =
      let rest : Bytes = joined key val m ++ (block_end ++ content) in
      rw
        (position_block-line line rest _ is_line (
          position_block-crlf rest _ (joined-starts key val m _ headers.0)
            (position_block-joined key val m content headers)))
        (omega (arith, length-append line (crlf ++ joined key val m)))

  -- A message with at least one header is cut into its first line and its header lines; the content
  -- is dropped.
  pub split_head_lem : length head < npos → split_head message ≡ value (line, joined key val m)
  unfolding split_head
  split_head_lem fits =
      let size = length-append line (crlf ++ joined key val m) in
      let pos : add64 (length line) 2 ≡ length (line ++ crlf) =
        omega (arith, length-append line crlf, size) in
      let view : substr message 0 (length head) ≡ value head =
        rw message-split (substr_prefix head (block_end ++ content)) in
      let rest : substr head (length (line ++ crlf)) npos ≡ value (joined key val m) =
        substr_suffix _ npos line crlf (joined key val m) refl (omega (arith, size)) in
      rw (find-block, view, find-line line (joined key val m) is_line, pos)
        (ground (arith, rest, size, substr_prefix line (crlf ++ joined key val m)))

-- A message with no headers is refused: the blank line takes the `\r\n` of the first line with it.
pub split_head_bare :
    (line content : Bytes)
    → IsLine line
    → split_head (line ++ (block_end ++ content)) ≡ error invalid_argument
unfolding split_head find to_pos
split_head_bare line content is_line =
    let blank : position block_end (line ++ (block_end ++ content)) ≡ some (length line + 0) =
      position_block-line line (crlf ++ content) 0 is_line (unfold position starts_with in refl) in
    let same : 0 + (length line + 0) ≡ length line = omega arith in
    rw (blank, same, substr_prefix line (block_end ++ content), is_line)
