-- ===== src/Http/Response/Serialize.antt =====
-- response.inl: what `serialize` does to the headers, and the responses that `create` does not read.
use cppio.Common.Order.{bytes_eq_refl}
use cppio.Common.{
  ◌+◌, ◌<◌, ◌≡◌, refl, arith, none, [], ◌∷◌, ◌++◌, length, length-append, All, append_assoc,
  if◌then◌else◌, terminate, error, invalid_argument,
}
use cppio.Common.Text.{Bytes, npos, bytes_eq}
use cppio.Common.Decimal.{to_string, stoul}
use cppio.Common.Searches.{Lacks, IsLine}
use cppio.Http.{line_end, block_end}
use cppio.Http.Headers
use cppio.Http.Headers.{HeaderMap}
use cppio.Http.Headers.Multimap.{IsSorted, get-add, add-IsSorted}
use cppio.Http.Headers.RoundTrip.{IsHeader, joined}
use cppio.Http.Message.Parts.{
  head_text, message_text, split_head_lem, split_head_bare, split_line_lem,
}
use cppio.Http.Response.{Response, create, serialize, content_length, status_line, stoul_noexcept}

-- Each call of `serialize` leaves one more `Content-Length` behind the ones that the response has, and
-- leaves the values of every other key, the version, the code and the content as they are.
get-serialize :
    (r : Response) (key : Bytes)
    → IsSorted r.headers
    → (Headers.get key (serialize r).0.headers ≡ (
        if bytes_eq content_length key
        then Headers.get key r.headers ++ to_string (length r.content) ∷ []
        else Headers.get key r.headers))
      × ((serialize r).0.version ≡ r.version)
      × ((serialize r).0.code ≡ r.code)
      × ((serialize r).0.content ≡ r.content)
unfolding serialize
get-serialize r key s =
    (get-add key content_length (to_string (length r.content)) r.headers s, refl, refl, refl)

serialize-IsSorted : (r : Response) → IsSorted r.headers → IsSorted (serialize r).0.headers
unfolding serialize
serialize-IsSorted r s = add-IsSorted content_length (to_string (length r.content)) r.headers s

-- A second call writes the length a second time.
get-serialize_twice :
    (r : Response)
    → IsSorted r.headers
    → Headers.get content_length (serialize (serialize r).0).0.headers
      ≡ Headers.get content_length r.headers
        ++ (to_string (length r.content) ∷ to_string (length r.content) ∷ [])
get-serialize_twice r s =
    let n = to_string (length r.content) in
    rw
      (
        (get-serialize (serialize r).0 content_length (serialize-IsSorted r s)).0,
        bytes_eq_refl content_length,
        (get-serialize r content_length s).0,
        (get-serialize r content_length s).3,
        bytes_eq_refl content_length,
      )
      (append_assoc (Headers.get content_length r.headers) (n ∷ []) (n ∷ []))

stoul_noexcept-none : (text : Bytes) → stoul text ≡ none → stoul_noexcept text ≡ terminate
unfolding stoul_noexcept
stoul_noexcept-none text h = ground (arith, h)

-- A status code that `std::stoul` does not take ends the process, in a message that is otherwise well
-- formed: `create` is marked `noexcept`.
create_bad_code :
    (version code reason key val : Bytes) (m : HeaderMap) (content : Bytes)
    → Lacks b' ' version
    → Lacks b' ' code
    → stoul code ≡ none
    → IsLine (version ++ (b' ' ∷ (code ++ (b' ' ∷ reason))))
    → All IsHeader ((key, val) ∷ m)
    → length (head_text (version ++ (b' ' ∷ (code ++ (b' ' ∷ reason)))) key val m) < npos
    → create (message_text (version ++ (b' ' ∷ (code ++ (b' ' ∷ reason)))) key val m content)
      ≡ terminate
unfolding create status_line
create_bad_code version code reason key val m content hv hc bad is_line hs fits =
    let line = version ++ (b' ' ∷ (code ++ (b' ' ∷ reason))) in
    let sized : length version + length code + length reason + 2 < npos = omega (
      arith,
      length-append line (line_end ++ joined key val m),
      length-append version (b' ' ∷ (code ++ (b' ' ∷ reason))),
      length-append code (b' ' ∷ reason),
    ) in
    rw (
      split_head_lem line key val m content is_line hs fits,
      split_line_lem version code reason hv hc sized,
      stoul_noexcept-none code bad,
    )

-- A response with no headers is refused, whatever its first line and its content are.
pub create_no_headers :
    (line content : Bytes)
    → IsLine line
    → create (line ++ (block_end ++ content)) ≡ error invalid_argument
unfolding create
create_no_headers line content is_line = rw (split_head_bare line content is_line)
