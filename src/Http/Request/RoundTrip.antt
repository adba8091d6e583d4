-- ===== src/Http/Request/RoundTrip.antt =====
-- request.inl: what `create` makes of the text that `serialize` writes.
use cppio.Http.Message.{split_line}
use cppio.Http.Response.{headers_or_error}
use cppio.Common.{
  ◌<◌, ◌≡◌, ◌≢◌, refl, ap, arith, [], ◌∷◌, ◌++◌, length, length-append, value, append_assoc, All,
  error, invalid_argument, ◌≤◌,
}
use cppio.Common.Text.{Bytes, npos}
use cppio.Common.Searches.{Lacks, IsLine, IsLine-append, IsLine-blank, IsLine-of_Lacks}
use cppio.Http.{line_end, block_end}
use cppio.Http.Headers
use cppio.Http.Headers.{HeaderMap}
use cppio.Http.Headers.Multimap.{IsSorted}
use cppio.Http.Headers.RoundTrip.{IsHeader, joined, create-joined, serialize-joined}
use cppio.Http.Method
use cppio.Http.Method.{Method}
use cppio.Http.Message.Parts.{
  head_text, message_text, split_head_lem, split_head_bare, split_line_lem,
}
use cppio.Http.Request.{Request, create, serialize, serialize_query}
use cppio.Http.Request.Query.{split_path_plain}

-- The first line of a request as it is written.
abbrev pub request_line : Request → Bytes
request_line r =
    Method.to_string r.method
    ++ (b' ' ∷ (r.path ++ (serialize_query r.parameters ++ (b' ' ∷ r.version))))

-- What a request has to meet to be written as it is.
pub record IsWritable (r : Request) : Type 0 where
  pub path_word : Lacks b' ' r.path
  pub path_plain : Lacks b'?' r.path
  pub path_line : IsLine r.path
  pub version_line : IsLine r.version
  pub no_parameters : r.parameters ≡ []
  pub headers_sorted : IsSorted r.headers
  pub headers_fit : All IsHeader r.headers

method-word : (m : Method) → Lacks b' ' (Method.to_string m) × Lacks b'\r' (Method.to_string m)
unfolding Method.to_string
method-word Method.get = omega arith
method-word _ = omega arith

serialize-parts :
    (r : Request) (key val : Bytes) (m : HeaderMap)
    → r.headers ≡ (key, val) ∷ m
    → serialize r ≡ message_text (request_line r) key val m []
unfolding serialize
serialize-parts r key val m e = rw (e, serialize-joined key val m) (simp append_assoc)

serialize_bare : (r : Request) → r.headers ≡ [] → serialize r ≡ request_line r ++ (block_end ++ [])
unfolding serialize Headers.serialize
serialize_bare r e = rw e (simp append_assoc)

-- The text of a request with no headers, and with no `\r\n` in its request line, is refused by `create`.
pub create-serialize_no_headers :
    (r : Request)
    → r.headers ≡ []
    → IsLine (request_line r)
    → create (serialize r) ≡ error invalid_argument
unfolding create
create-serialize_no_headers r e is_line =
    rw (serialize_bare r e, split_head_bare (request_line r) [] is_line)

request_line_plain :
    (r : Request)
    → r.parameters ≡ []
    → request_line r ≡ Method.to_string r.method ++ (b' ' ∷ (r.path ++ (b' ' ∷ r.version)))
unfolding serialize_query
request_line_plain r e = rw e

request_line-IsLine : (r : Request) → IsWritable r → IsLine (request_line r)
request_line-IsLine r w = rw (request_line_plain r w.no_parameters) (
    IsLine-append (Method.to_string r.method) _ b' ' (IsLine-of_Lacks _ (method-word r.method).1)
      (IsLine-blank _ b' ' (λ e. omega arith)
        (IsLine-append r.path r.version b' ' w.path_line
          (IsLine-blank r.version b' ' (λ e. omega arith) w.version_line) (λ e. omega arith)))
      (λ e. omega arith))

split_line-request_line :
    (r : Request)
    → IsWritable r
    → length (request_line r) < npos
    → split_line (request_line r) ≡ value (Method.to_string r.method, r.path, r.version)
split_line-request_line r w fits =
    let plain = request_line_plain r w.no_parameters in
    rw plain (
      split_line_lem (Method.to_string r.method) r.path r.version (method-word r.method).0
        w.path_word
        (omega (
          arith,
          ap length plain,
          length-append (Method.to_string r.method) (b' ' ∷ (r.path ++ (b' ' ∷ r.version))),
          length-append r.path (b' ' ∷ r.version),
        )))

create-message :
    (r : Request) (key val : Bytes) (m : HeaderMap)
    → IsWritable r
    → r.headers ≡ (key, val) ∷ m
    → length (head_text (request_line r) key val m) < npos
    → create (message_text (request_line r) key val m []) ≡ value r
unfolding create headers_or_error
create-message r key val m w e fits =
    let size = length-append (request_line r) (line_end ++ joined key val m) in
    let headers = rw e at w.headers_fit in
    let cut = split_head_lem (request_line r) key val m [] (request_line-IsLine r w) headers fits in
    let parts = split_line-request_line r w (omega (arith, size)) in
    let read = create-joined key val m (rw e at w.headers_sorted) headers (omega (arith, size)) in
    rw (cut, parts, read, split_path_plain r.path w.path_plain, Method.create-to_string r.method)
      (ground (arith, e, w.no_parameters))

head-le :
    (line key val : Bytes) (m : HeaderMap)
    → length (head_text line key val m) ≤ length (message_text line key val m [])
head-le line key val m = omega (
  arith,
  length-append line (line_end ++ joined key val m),
  length-append line (line_end ++ (joined key val m ++ (block_end ++ []))),
  length-append (joined key val m) (block_end ++ []),
)

-- A writable request with at least one header is read back from its text.
pub create-serialize_request :
    (r : Request)
    → IsWritable r
    → r.headers ≢ []
    → length (serialize r) < npos
    → create (serialize r) ≡ value r
create-serialize_request r w some_header fits = go r.headers refl
  where
    go : (headers : HeaderMap) → r.headers ≡ headers → create (serialize r) ≡ value r
    go [] e = absurd (some_header e)
    go ((key, val) ∷ m) e =
        let text = serialize-parts r key val m e in
        rw text (
          create-message r key val m w e
            (omega (arith, ap length text, head-le (request_line r) key val m)))
