-- ===== src/Http/Response.antt =====
-- cppio/network/http/response.hpp and response.inl: a response, its reading and its writing. The
-- accessors are the fields of the record.
pub mod Serialize
pub mod RoundTrip
use cppio.Common.{
  ℕ, zero, suc, ◌%◌, ◌^◌, ◌++◌, Option, none, some, [], ◌∷◌, length, Outcome, value, terminate,
  ◌>>=◌, error, diverge, invalid_argument, ◌≢◌,
}
use cppio.Common.Text.{Bytes, codes, substr, npos}
use cppio.Common.Decimal.{to_string, stoul}
use cppio.Http.{line_end}
use cppio.Http.Headers
use cppio.Http.Headers.{HeaderMap}
use cppio.Http.Message.{split_head, split_line}

pub record Response : Type 0 where
  pub version : Bytes
  pub code : ℕ
  pub headers : HeaderMap
  pub content : Bytes

-- A default-constructed response.
abbrev pub initial : Response
initial = record { version = codes "HTTP/1.1"; code = 200; headers = []; content = [] }

-- `std::stoul`, whose exceptions end the process in a function marked `noexcept`.
unfoldable pub stoul_noexcept : Bytes → Outcome ℕ
stoul_noexcept text = elim (stoul text) [ none ↦ terminate | some n ↦ value n ]

-- The first line: the version and the status code, as the 32 bits that `m_code` keeps.
unfoldable pub status_line : Bytes → Outcome (Bytes × ℕ)
status_line http_line = do
  parts ← split_line http_line
  code ← stoul_noexcept parts.1
  value (parts.0, code % 2 ^ 32)

-- A refused header block is refused with the same code.
unfoldable pub headers_or_error : Outcome HeaderMap → Outcome HeaderMap
headers_or_error (error e) = error invalid_argument
headers_or_error r = r

pub headers_or_error-ne-diverge :
    (r : Outcome HeaderMap) → r ≢ diverge → headers_or_error r ≢ diverge
unfolding headers_or_error
headers_or_error-ne-diverge (error e) h k = cc
headers_or_error-ne-diverge r h k = h k

unfoldable pub create : Bytes → Outcome Response
create text = do
  (http_line, header_lines) ← split_head text
  (version, code) ← status_line http_line
  headers ← headers_or_error (Headers.create header_lines)
  value (record { version = version; code = code; headers = headers; content = [] })

abbrev pub content_length : Bytes
content_length = codes "Content-Length"

-- The call adds a header to the response, so it returns the response too.
unfoldable pub serialize : Response → Response × Bytes
serialize r =
    let headers = Headers.add content_length (to_string (length r.content)) r.headers in
    let first = r.version ++ (codes " " ++ (to_string r.code ++ (codes " OK" ++ line_end))) in
    (
      record r { headers = headers },
      first ++ (Headers.serialize headers ++ (line_end ++ r.content)),
    )

-- The copy constructor.
unfoldable pub copy : Response → Response
copy rhs = record {
  version = rhs.version;
  code = rhs.code;
  content = rhs.content;
  headers = (Headers.copy rhs.headers).0;
}

-- The copy assignment.
unfoldable pub copy_assign : Response → Response → Response
copy_assign lhs rhs = record {
  version = rhs.version;
  code = rhs.code;
  content = rhs.content;
  headers = (Headers.copy_assign lhs.headers rhs.headers).0;
}

-- The move constructor leaves the old response with empty fields and the code 0.
unfoldable pub move : Response → Response × Response
move rhs = (rhs, record { version = []; code = 0; headers = []; content = [] })

-- The move assignment swaps the fields.
unfoldable pub move_assign : Response → Response → Response × Response
move_assign lhs rhs = (rhs, lhs)

unfoldable pub set_content : Bytes → Response → Response
set_content content r = record r { content = content }

-- The status is a number of 32 bits.
unfoldable pub set_status : ℕ → Response → Response
set_status code r = record r { code = code }

unfoldable pub set_version : Bytes → Response → Response
set_version version r = record r { version = version }
