-- ===== src/Tests/HttpParts.antt =====
-- Runs of method.hpp, encoding.inl and header_map.inl.
use cppio.Common.Order.{bytes_eq_iff}
use cppio.Http.Headers.Abstract.{push_all, push, add_all, view, get-add_all}
use cppio.Common.{
  ◌≤◌, ◌≡◌, refl, [], ◌∷◌, ◌++◌, arith, length, All, value, List, Bool-cases, inl, subst, inr,
  error, invalid_argument,
}
use cppio.Common.Text.{
  codes, bytes_less, substr, find, find_first_of, index_of, position, starts_with, to_pos, Bytes,
  bytes_eq,
}
use cppio.Http.Encoding.{url_encode, url_decode}
use cppio.Http.Encoding.RoundTrip.{url_decode-url_encode}
use cppio.Http.Headers
use cppio.Http.Headers.{HeaderMap}
use cppio.Http.Headers.Multimap.{IsSorted}
use cppio.Http.Headers.Described.{create-read_lines}
use cppio.Http.Headers.Format.{read_lines, split_lines, ends_line, cut_line}
use cppio.Http.Headers.RoundTrip.{create-serialize, IsHeader}

encode_run : url_encode (codes "a b/") ≡ codes "a%20b%2f" ++ 0 ∷ []
unfolding url_encode
encode_run = refl

decode_run : url_decode (codes "a+b%2Fc%4") ≡ codes "a b/c4"
unfolding url_decode
decode_run = refl

abbrev sample : HeaderMap
sample = (codes "Date", codes "Mon") ∷ (codes "Server", codes "cppio") ∷ []

headers_run : Headers.create (codes "Server: cppio\r\nDate: Mon") ≡ value sample
unfolding Headers.create Headers.create_loop Headers.create_round Headers.header_line Headers.add
    substr find find_first_of index_of position starts_with to_pos bytes_less
headers_run = refl

no_space_run : Headers.create (codes "Date:Mon\r\n") ≡ value ((codes "Date", codes "on") ∷ [])
unfolding Headers.create Headers.create_loop Headers.create_round Headers.header_line Headers.add
    substr find find_first_of index_of position starts_with to_pos bytes_less
no_space_run = refl

url_decode-url_encode_example : url_decode (url_encode (codes "a b&c")) ≡ codes "a b&c" ++ 0 ∷ []
url_decode-url_encode_example = url_decode-url_encode (codes "a b&c") (omega arith)

sample-IsSorted : IsSorted sample
unfolding bytes_less
sample-IsSorted = ((refl, tt), (tt, tt))

sample-IsHeader : All IsHeader sample
unfolding position starts_with
sample-IsHeader = ((omega arith, refl), ((omega arith, refl), tt))

sample_fits : length (Headers.serialize sample) ≤ 100
unfolding Headers.serialize
sample_fits = omega arith

create-serialize_example : Headers.create (Headers.serialize sample) ≡ value sample
create-serialize_example =
    create-serialize sample sample-IsSorted sample-IsHeader (omega (arith, sample_fits))

-- The second line has no colon, and the third would end the process.
abbrev unread_text : Bytes
unread_text = codes "Age: 1\r\nVia\r\nDate:"

unread_fits : length unread_text ≤ 100
unread_fits = omega arith

create-read_lines_example : Headers.create unread_text ≡ error invalid_argument
unfolding read_lines split_lines ends_line cut_line
create-read_lines_example = create-read_lines unread_text (omega (arith, unread_fits))

-- Two orders of the same headers.
abbrev adds : List (Bytes × Bytes)
adds = (codes "Via", codes "a") ∷ (codes "Age", codes "1") ∷ (codes "Via", codes "b") ∷ []

abbrev others : List (Bytes × Bytes)
others = (codes "Age", codes "1") ∷ (codes "Via", codes "a") ∷ (codes "Via", codes "b") ∷ []

adds_same : (key : Bytes) → push_all adds (view []) key ≡ push_all others (view []) key
unfolding push_all push bytes_eq Headers.get
adds_same key = elim (Bool-cases (bytes_eq (codes "Via") key)) [
  | inl via ↦
      subst (λ k. push_all adds (view []) k ≡ push_all others (view []) k)
        ((bytes_eq_iff (codes "Via") key).0 via) refl
  | inr other ↦ rw other refl
]

get-add_all_example :
    ((key : Bytes) → Headers.get key (add_all adds []) ≡ push_all adds (view []) key)
    × (add_all adds [] ≡ add_all others [])
    × (Headers.serialize (add_all adds []) ≡ Headers.serialize (add_all others []))
get-add_all_example = get-add_all adds others [] tt adds_same
