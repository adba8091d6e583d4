-- ===== src/Tests/HttpMessages.antt =====
-- Runs of request.inl and response.inl.
use cppio.Common.{
  ◌≤◌, ◌≡◌, ◌≢◌, refl, [], ◌∷◌, ◌++◌, arith, length, some, none, value, error, diverge,
  invalid_argument,
}
use cppio.Common.Text.{codes, bytes_less, position, starts_with}
use cppio.Common.Decimal.{to_string, stoul, digits}
use cppio.Common.Searches.{IsLine}
use cppio.Http.Headers
use cppio.Http.Headers.{HeaderMap}
use cppio.Http.Method
use cppio.Http.Response
use cppio.Http.Response.{Response, content_length}
use cppio.Http.Request
use cppio.Http.Request.{Request, ParameterMap}
use cppio.Http.Request.Query.{query_text, assign_all, IsParameter}

abbrev reply : Response
reply = record {
  version = codes "HTTP/1.1";
  code = 404;
  headers = (codes "Server", codes "cppio") ∷ [];
  content = codes "gone";
}

serialize_run :
    (Response.serialize reply).1
    ≡ codes "HTTP/1.1 404 OK\r\nContent-Length: 4\r\nServer: cppio\r\n\r\ngone"
unfolding Response.serialize to_string digits Headers.add Headers.serialize bytes_less
serialize_run = refl

reply_fits : length (Response.serialize reply).1 ≤ 100
unfolding Response.serialize to_string digits Headers.add Headers.serialize bytes_less
reply_fits = omega arith

reply-IsWritable : Response.RoundTrip.IsWritable reply
unfolding position starts_with
reply-IsWritable = record {
  version_word = omega arith;
  version_line = refl;
  code_small = omega arith;
  headers_sorted = (tt, tt);
  headers_fit = ((omega arith, refl), tt);
}

create-serialize_response_example :
    Response.create (Response.serialize reply).1
    ≡ value (record reply {
      headers = Headers.add content_length (to_string 4) reply.headers;
      content = [];
    })
create-serialize_response_example =
    Response.RoundTrip.create-serialize_response reply reply-IsWritable (omega (arith, reply_fits))

bad_code : stoul (codes "4O4") ≡ some 4 × (stoul (codes "x") ≡ none)
unfolding stoul
bad_code = (refl, refl)

malformed-IsLine : IsLine (codes "HTTP/1.1 x OK") × IsLine (codes "A: b")
unfolding position starts_with
malformed-IsLine = (refl, refl)

abbrev call : Request
call = record {
  method = Method.post;
  version = codes "HTTP/1.1";
  path = codes "/a";
  headers = (codes "Host", codes "x") ∷ [];
  parameters = [];
}

call_run : Request.serialize call ≡ codes "POST /a HTTP/1.1\r\nHost: x\r\n\r\n"
unfolding Request.serialize Request.serialize_query Method.to_string Headers.serialize
call_run = refl

call_fits : length (Request.serialize call) ≤ 100
call_fits = rw call_run (omega arith)

call-IsWritable : Request.RoundTrip.IsWritable call
unfolding position starts_with
call-IsWritable = record {
  path_word = omega arith;
  path_plain = omega arith;
  path_line = refl;
  version_line = refl;
  no_parameters = refl;
  headers_sorted = (tt, tt);
  headers_fit = ((omega arith, refl), tt);
}

create-serialize_request_example : Request.create (Request.serialize call) ≡ value call
create-serialize_request_example =
    Request.RoundTrip.create-serialize_request call call-IsWritable (cc) (omega (arith, call_fits))

initial-IsLine : IsLine (Request.RoundTrip.request_line Request.initial)
unfolding position starts_with Method.to_string Request.serialize_query
initial-IsLine = refl

create-serialize_no_headers_example :
    Request.create (Request.serialize Request.initial) ≡ error invalid_argument
create-serialize_no_headers_example =
    Request.RoundTrip.create-serialize_no_headers Request.initial refl initial-IsLine

-- A path is written as it is given: one with a line end puts a header into the request.
abbrev forged : Request
forged = Request.set_path (codes "/x HTTP/1.1\r\nA: b") Request.initial

abbrev forged_read : Request
forged_read = record {
  method = Method.get;
  version = codes "HTTP/1.1";
  path = codes "/x";
  headers = (codes "A", codes "b HTTP/1.1") ∷ [];
  parameters = [];
}

forged-IsWritable : Request.RoundTrip.IsWritable forged_read
unfolding position starts_with
forged-IsWritable = record {
  path_word = omega arith;
  path_plain = omega arith;
  path_line = refl;
  version_line = refl;
  no_parameters = refl;
  headers_sorted = (tt, tt);
  headers_fit = ((omega arith, refl), tt);
}

forged_text : Request.serialize forged ≡ Request.serialize forged_read
unfolding Request.serialize Request.serialize_query Request.set_path Method.to_string
    Headers.serialize
forged_text = refl

forged_fits : length (Request.serialize forged_read) ≤ 100
unfolding Request.serialize Request.serialize_query Method.to_string Headers.serialize
forged_fits = omega arith

forged_run : Request.create (Request.serialize forged) ≡ value forged_read
forged_run = rw forged_text (
    Request.RoundTrip.create-serialize_request forged_read forged-IsWritable (cc)
      (omega (arith, forged_fits)))

create-ne-diverge_request_example : Request.create (codes "GET /?a=b HTTP/1.1\r\nA: b") ≢ diverge
create-ne-diverge_request_example =
    Request.Total.create-ne-diverge_request (codes "GET /?a=b HTTP/1.1\r\nA: b") (omega arith)

abbrev pairs : ParameterMap
pairs = (codes "b", codes "2+3") ∷ []

query_fits : length (query_text (codes "a") (codes "1") pairs) ≤ 100
unfolding query_text
query_fits = omega arith

split_path-query_example :
    Request.split_path (codes "/p" ++ (b'?' ∷ query_text (codes "a") (codes "1") pairs))
    ≡ value (codes "/p", assign_all [] ((codes "a", codes "1") ∷ pairs))
split_path-query_example =
    Request.Query.split_path-query (codes "/p") (codes "a") (codes "1") pairs (omega arith)
      (omega arith) (omega (arith, query_fits))
