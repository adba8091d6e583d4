-- ===== src/Http/Request.antt =====
-- cppio/network/http/request.hpp and request.inl: a request, its reading and its writing. The
-- accessors are the fields of the record. The
-- `unordered_map` of the parameters is the list of its pairs in iteration order, each key once; that
-- a new key goes to the end is a choice, since the standard leaves the order open.
pub mod Parameters
pub mod Query
pub mod RoundTrip
pub mod Total
use cppio.Common.{
  ℕ, zero, suc, ◌+◌, Option, none, some, List, [], ◌∷◌, ◌++◌, ◌==◌, if◌then◌else◌, length, Outcome,
  value, error, diverge, invalid_argument, ◌>>=◌,
}
use cppio.Common.Text.{Bytes, codes, npos, add64, substr, find_first_of, bytes_eq}
use cppio.Http.{line_end}
use cppio.Http.Encoding.{url_encode, url_decode}
use cppio.Http.Headers
use cppio.Http.Headers.{HeaderMap}
use cppio.Http.Message.{split_head, split_line}
use cppio.Http.Method
use cppio.Http.Method.{Method}
use cppio.Http.Response.{headers_or_error}

abbrev pub ParameterMap : Type 0
ParameterMap = List (Bytes × Bytes)

pub record Request : Type 0 where
  pub method : Method
  pub version : Bytes
  pub path : Bytes
  pub headers : HeaderMap
  pub parameters : ParameterMap

-- A default-constructed request.
abbrev pub initial : Request
initial = record {
  method = Method.get;
  version = codes "HTTP/1.1";
  path = [];
  headers = [];
  parameters = [];
}

-- `m_parameters[key] = val`
unfoldable pub assign : Bytes → Bytes → ParameterMap → ParameterMap
assign key val [] = (key, val) ∷ []
assign key val ((j, w) ∷ m) = if bytes_eq j key then (j, val) ∷ m else (j, w) ∷ assign key val m

unfoldable pub lookup : Bytes → ParameterMap → Option Bytes
lookup key [] = none
lookup key ((j, w) ∷ m) = if bytes_eq j key then some w else lookup key m

-- One `key=value` of the query; with no `=` the value is empty. The key is not decoded.
unfoldable pub read_parameter : Bytes → ParameterMap → Outcome ParameterMap
read_parameter text m = do
  let equal_pos = find_first_of text b'=' 0
  key ← substr text 0 equal_pos
  val ← if equal_pos == npos then value [] else substr text (add64 equal_pos 1) npos
  value (assign key (url_decode val) m)

-- One round of the loop: the new map, and the rest of the query unless the loop breaks.
unfoldable pub parameter_round : Bytes → ParameterMap → Outcome (ParameterMap × Option Bytes)
parameter_round args m = do
  let separator_pos = find_first_of args b'&' 0
  text ← substr args 0 separator_pos
  m' ← read_parameter text m
  rest ← substr args (add64 separator_pos 1) npos
  value (m', if separator_pos == npos then none else some rest)

unfoldable pub parameter_loop : ℕ → Bytes → ParameterMap → Outcome ParameterMap
parameter_loop fuel [] m = value m
parameter_loop zero (c ∷ args) m = diverge
parameter_loop (suc fuel) (c ∷ args) m = do
  (m', next) ← parameter_round (c ∷ args) m
  elim next [ none ↦ value m' | some rest ↦ parameter_loop fuel rest m' ]

-- The path before its first `?`, and the parameters behind it. Each round takes a byte, so the size of
-- the query is enough fuel.
unfoldable pub split_path : Bytes → Outcome (Bytes × ParameterMap)
split_path path = do
  let arg_delim = find_first_of path b'?' 0
  if arg_delim == npos then value (path, []) else do
    args ← substr path (add64 arg_delim 1) npos
    m ← parameter_loop (length args) args []
    bare ← substr path 0 arg_delim
    value (bare, m)

unfoldable pub create : Bytes → Outcome Request
create text = do
  (http_line, header_lines) ← split_head text
  (method, path, version) ← split_line http_line
  headers ← headers_or_error (Headers.create header_lines)
  (bare, parameters) ← split_path path
  value (record {
    method = Method.create method;
    version = version;
    path = bare;
    headers = headers;
    parameters = parameters;
  })

-- The loop writes no separator between two parameters.
unfoldable pub serialize_parameters : ParameterMap → Bytes
serialize_parameters [] = []
serialize_parameters ((key, val) ∷ m) =
    url_encode key ++ (b'=' ∷ (url_encode val ++ serialize_parameters m))

unfoldable pub serialize_query : ParameterMap → Bytes
serialize_query [] = []
serialize_query (p ∷ m) = b'?' ∷ serialize_parameters (p ∷ m)

unfoldable pub serialize : Request → Bytes
serialize r =
    let first = Method.to_string r.method ++ (b' ' ∷ r.path) in
    let line = first ++ (serialize_query r.parameters ++ (b' ' ∷ (r.version ++ line_end))) in
    line ++ (Headers.serialize r.headers ++ line_end)

-- The copy constructor.
unfoldable pub copy : Request → Request
copy rhs = record {
  method = rhs.method;
  version = rhs.version;
  path = rhs.path;
  headers = (Headers.copy rhs.headers).0;
  parameters = rhs.parameters;
}

-- The copy assignment.
unfoldable pub copy_assign : Request → Request → Request
copy_assign lhs rhs = record {
  method = rhs.method;
  version = rhs.version;
  path = rhs.path;
  headers = (Headers.copy_assign lhs.headers rhs.headers).0;
  parameters = rhs.parameters;
}

-- The move constructor leaves the old request with GET and empty fields.
unfoldable pub move : Request → Request × Request
move rhs =
    (rhs, record { method = Method.get; version = []; path = []; headers = []; parameters = [] })

-- The move assignment swaps the fields.
unfoldable pub move_assign : Request → Request → Request × Request
move_assign lhs rhs = (rhs, lhs)

unfoldable pub set_method : Method → Request → Request
set_method method r = record r { method = method }

unfoldable pub set_path : Bytes → Request → Request
set_path path r = record r { path = path }

unfoldable pub set_version : Bytes → Request → Request
set_version version r = record r { version = version }
