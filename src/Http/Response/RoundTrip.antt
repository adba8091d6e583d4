-- ===== src/Http/Response/RoundTrip.antt =====
-- response.inl: `create` reads back what `serialize` writes, all but the content.
use cppio.Http.Message.Parts.{message_text, split_line_lem, head_text, split_head_lem}
use cppio.Common.{
  inl, inr, ℕ, ◌+◌, ◌<◌, ◌≤◌, ◌^◌, ◌%◌, ◌≡◌, refl, ap, arith, [], ◌∷◌, ◌++◌, length, length-append,
  All, value, append_assoc, ◌≢◌, All-append, Bool-cases, some,
}
use cppio.Common.Text.{Bytes, codes, npos, bytes_less}
use cppio.Common.Decimal.{to_string, to_string-Lacks, stoul-to_string, stoul}
use cppio.Common.Searches.{Lacks, IsLine, IsLine-append, IsLine-of_Lacks, IsLine-blank}
use cppio.Http.{line_end, block_end}
use cppio.Http.Headers
use cppio.Http.Headers.{HeaderMap}
use cppio.Http.Headers.Multimap.{IsSorted, add-IsSorted, add-All}
use cppio.Http.Headers.RoundTrip.{IsHeader, serialize-joined, joined, create-joined}
use cppio.Http.Response.{
  Response, create, serialize, content_length, status_line, stoul_noexcept, headers_or_error,
}

-- What a response has to meet to be written as it is: a version of one word, a code of 32 bits, and
-- headers that lines can hold.
pub record IsWritable (r : Response) : Type 0 where
  pub version_word : Lacks b' ' r.version
  pub version_line : IsLine r.version
  pub code_small : r.code < 2 ^ 32
  pub headers_sorted : IsSorted r.headers
  pub headers_fit : All IsHeader r.headers

abbrev pub first_line : Response → Bytes
first_line r = r.version ++ (b' ' ∷ (to_string r.code ++ (b' ' ∷ codes "OK")))

-- The text of a response behind a non-empty map: its first line, its headers, the blank line and the
-- content.
serialize-parts :
    (r : Response) (key val : Bytes) (m : HeaderMap)
    → Headers.add content_length (to_string (length r.content)) r.headers ≡ (key, val) ∷ m
    → (serialize r).1 ≡ message_text (first_line r) key val m r.content
unfolding serialize
serialize-parts r key val m e = rw (e, serialize-joined key val m) (simp append_assoc)

-- The first line has no `\r\n` inside, since what follows the version holds no `\r`.
first_line-IsLine : (r : Response) → IsLine r.version → IsLine (first_line r)
first_line-IsLine r h =
    IsLine-append r.version _ b' ' h
      (IsLine-blank _ b' ' (λ e. omega arith)
        (IsLine-of_Lacks _ (
          All-append (λ x. x ≢ b'\r') (to_string r.code) (b' ' ∷ codes "OK")
            (to_string-Lacks b'\r' r.code (omega arith)) (omega arith))))
      (λ e. omega arith)

stoul_noexcept-some : (text : Bytes) (n : ℕ) → stoul text ≡ some n → stoul_noexcept text ≡ value n
unfolding stoul_noexcept
stoul_noexcept-some text n h = ground (arith, h)

status_line_lem :
    (r : Response)
    → Lacks b' ' r.version
    → r.code < 2 ^ 32
    → length (first_line r) < npos
    → status_line (first_line r) ≡ value (r.version, r.code)
unfolding status_line
status_line_lem r h small fits =
    let sized : length r.version + length (to_string r.code) + length (codes "OK") + 2 < npos =
      omega (
        arith,
        length-append r.version (b' ' ∷ (to_string r.code ++ (b' ' ∷ codes "OK"))),
        length-append (to_string r.code) (b' ' ∷ codes "OK"),
      ) in
    let digits = to_string-Lacks b' ' r.code (omega arith) in
    let number = stoul_noexcept-some _ r.code (stoul-to_string r.code (omega arith)) in
    rw (split_line_lem r.version (to_string r.code) (codes "OK") h digits sized, number)
      (let same : r.code % 2 ^ 32 ≡ r.code = omega arith in rw same)

content_length-IsHeader : (n : ℕ) → IsHeader (content_length, to_string n)
content_length-IsHeader n = (
  omega arith,
  IsLine-of_Lacks _ (
      All-append (λ x. x ≢ b'\r') (content_length ++ b':' ∷ b' ' ∷ []) (to_string n) (omega arith)
        (to_string-Lacks b'\r' n (omega arith))),
)

-- The map that is written is never empty.
add-cons :
    (key val : Bytes) (m : HeaderMap)
    → (j : Bytes) × (w : Bytes) × (m' : HeaderMap) × (Headers.add key val m ≡ (j, w) ∷ m')
unfolding Headers.add
add-cons key val [] = (key, val, [], refl)
add-cons key val ((j, w) ∷ m) = elim (Bool-cases (bytes_less key j)) [
  | inl below ↦ (key, val, (j, w) ∷ m, rw below)
  | inr above ↦ (j, w, Headers.add key val m, rw above)
]

create-message :
    (r : Response) (key val : Bytes) (m : HeaderMap)
    → IsWritable r
    → IsSorted ((key, val) ∷ m)
    → All IsHeader ((key, val) ∷ m)
    → length (head_text (first_line r) key val m) < npos
    → create (message_text (first_line r) key val m r.content)
      ≡ value (record r { headers = (key, val) ∷ m; content = [] })
unfolding create headers_or_error
create-message r key val m w s hs fits =
    let line = first_line r in
    let size = length-append line (line_end ++ joined key val m) in
    let cut =
      split_head_lem line key val m r.content (first_line-IsLine r w.version_line) hs fits in
    rw (
      cut,
      status_line_lem r w.version_word w.code_small (omega (arith, size)),
      create-joined key val m s hs (omega (arith, size)),
    )

serialize-le :
    (line key val : Bytes) (m : HeaderMap) (content : Bytes)
    → length (head_text line key val m) ≤ length (message_text line key val m content)
serialize-le line key val m content = omega (
  arith,
  length-append line (line_end ++ joined key val m),
  length-append line (line_end ++ (joined key val m ++ (block_end ++ content))),
  length-append (joined key val m) (block_end ++ content),
)

-- A writable response is read back from its text with the `Content-Length` header that `serialize`
-- adds, and with no content: `create` does not read the content.
pub create-serialize_response :
    (r : Response)
    → IsWritable r
    → length (serialize r).1 < npos
    → create (serialize r).1
      ≡ value (record r {
        headers = Headers.add content_length (to_string (length r.content)) r.headers;
        content = [];
      })
create-serialize_response r w fits =
    let (key, val, m, e) = add-cons content_length (to_string (length r.content)) r.headers in
    let text = serialize-parts r key val m e in
    let sorted =
      add-IsSorted content_length (to_string (length r.content)) r.headers w.headers_sorted in
    let writable =
      add-All IsHeader content_length (to_string (length r.content)) r.headers
        (content_length-IsHeader (length r.content)) w.headers_fit in
    rw (text, e)
      (create-message r key val m w (rw e at sorted) (rw e at writable)
        (omega (arith, ap length text, serialize-le (first_line r) key val m r.content)))
