-- ===== src/Http/Request/Parameters.antt =====
-- request.inl: the parameters of a query. The loop ends, reads every `key=value` in order, and reads
-- what `serialize` writes as one parameter.
use cppio.Common.Order.{bytes_eq_iff}
use cppio.Common.{
  ◌+◌, ◌<◌, ◌≡◌, refl, arith, [], ◌∷◌, ◌++◌, length, length-append, value, some, none,
  if◌then◌else◌,
}
use cppio.Common.Text.{Bytes, npos, add64, bytes_eq}
use cppio.Common.Searches.{
  Lacks, find_first_of-append, find_first_of-Lacks, substr_prefix, substr_whole, substr_suffix,
}
use cppio.Http.Encoding.{url_decode}
use cppio.Http.Request.{ParameterMap, assign, lookup, read_parameter, parameter_round}

-- A key that was assigned holds the value, and every other key what it held before.
pub lookup-assign :
    (key j val : Bytes) (m : ParameterMap)
    → lookup key (assign j val m) ≡ (if bytes_eq j key then some val else lookup key m)
unfolding lookup assign
lookup-assign key j val [] = refl
lookup-assign key j val ((i, w) ∷ m) =
    ground
      (arith, bytes_eq_iff j key, bytes_eq_iff i j, bytes_eq_iff i key, lookup-assign key j val m)

pub read_parameter_lem :
    (key val : Bytes) (m : ParameterMap)
    → Lacks b'=' key
    → length key + length val + 1 < npos
    → read_parameter (key ++ (b'=' ∷ val)) m ≡ value (assign key (url_decode val) m)
unfolding read_parameter
read_parameter_lem key val m h fits =
    let sep : Bytes = b'=' ∷ [] in
    let pos : add64 (length key) 1 ≡ length (key ++ sep) = omega (arith, length-append key sep) in
    rw (find_first_of-append b'=' key val h, pos)
      (ground (
        arith,
        substr_prefix key (b'=' ∷ val),
        substr_suffix (length (key ++ sep)) npos key sep val refl (omega arith),
      ))

-- A parameter with no `=` has an empty value.
pub read_parameter_bare :
    (key : Bytes) (m : ParameterMap)
    → Lacks b'=' key
    → length key < npos
    → read_parameter key m ≡ value (assign key [] m)
unfolding read_parameter url_decode
read_parameter_bare key m h fits =
    rw (find_first_of-Lacks b'=' key h) (ground (arith, substr_whole key npos (omega arith)))

pub parameter_round_more :
    (text rest : Bytes) (m m' : ParameterMap)
    → Lacks b'&' text
    → length text + length rest + 1 < npos
    → read_parameter text m ≡ value m'
    → parameter_round (text ++ (b'&' ∷ rest)) m ≡ value (m', some rest)
unfolding parameter_round
parameter_round_more text rest m m' h fits read =
    let sep : Bytes = b'&' ∷ [] in
    let pos : add64 (length text) 1 ≡ length (text ++ sep) =
      omega (arith, length-append text sep) in
    rw (find_first_of-append b'&' text rest h, pos)
      (ground (
        arith,
        read,
        substr_prefix text (b'&' ∷ rest),
        substr_suffix (length (text ++ sep)) npos text sep rest refl (omega arith),
      ))

pub parameter_round_last :
    (text : Bytes) (m m' : ParameterMap)
    → Lacks b'&' text
    → length text < npos
    → read_parameter text m ≡ value m'
    → parameter_round text m ≡ value (m', none)
unfolding parameter_round
parameter_round_last text m m' h fits read =
    rw (find_first_of-Lacks b'&' text h)
      (ground (arith, read, substr_whole text npos (omega arith)))
