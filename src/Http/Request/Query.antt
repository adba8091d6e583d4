-- ===== src/Http/Request/Query.antt =====
-- request.inl: the query of a path is read parameter by parameter, and what `serialize` writes of
-- several parameters is read as one.
use cppio.Http.Encoding.RoundTrip.{url_encode_form, IsUrlByte}
use cppio.Common.{
  ℕ, zero, suc, ◌+◌, ◌<◌, ◌≤◌, ◌≡◌, ◌≢◌, refl, ◌∙◌, arith, [], ◌∷◌, ◌++◌, length, length-append,
  All, All-append, value, some, none, ◌⊎◌, inl, inr,
}
use cppio.Common.Text.{Bytes, npos, add64}
use cppio.Common.Searches.{
  Lacks, find_first_of-Lacks, find_first_of-append, substr_prefix, substr_suffix,
}
use cppio.Http.Encoding.{url_encode, url_decode, isalnum}
use cppio.Http.Request.Parameters.{read_parameter_lem, parameter_round_more, parameter_round_last}
use cppio.Http.Request.{
  ParameterMap, assign, parameter_round, parameter_loop, split_path, serialize_parameters,
  serialize_query,
}

abbrev pub parameter_text : Bytes → Bytes → Bytes
parameter_text key val = key ++ (b'=' ∷ val)

-- A query of at least one parameter, with `&` between them.
unfoldable pub query_text : Bytes → Bytes → ParameterMap → Bytes
query_text key val [] = parameter_text key val
query_text key val ((j, w) ∷ m) = parameter_text key val ++ (b'&' ∷ query_text j w m)

abbrev pub IsParameter : Bytes × Bytes → Type 0
IsParameter (key, val) = Lacks b'=' key × Lacks b'&' key × Lacks b'&' val

-- The assignments of a query, first to last.
abbrev pub assign_all : ParameterMap → ParameterMap → ParameterMap
assign_all acc [] = acc
assign_all acc ((key, val) ∷ m) = assign_all (assign key (url_decode val) acc) m

parameter_text-Lacks :
    (key val : Bytes) → IsParameter (key, val) → Lacks b'&' (parameter_text key val)
parameter_text-Lacks key val h =
    All-append (λ x. x ≢ b'&') key (b'=' ∷ val) h.1 ((λ e. omega arith), h.2)

length-parameter_text :
    (key val : Bytes) → length (parameter_text key val) ≡ length key + length val + 1
length-parameter_text key val = omega (arith, length-append key (b'=' ∷ val))

length-query_text :
    (key val j w : Bytes) (m : ParameterMap)
    → length (query_text key val ((j, w) ∷ m))
      ≡ length key + length val + 2 + length (query_text j w m)
unfolding query_text
length-query_text key val j w m = omega (
  arith,
  length-append (parameter_text key val) (b'&' ∷ query_text j w m),
  length-parameter_text key val,
)

parameter_loop_step :
    (fuel : ℕ) (args : Bytes) (m m' : ParameterMap) (rest : Bytes)
    → 0 < length args
    → parameter_round args m ≡ value (m', some rest)
    → parameter_loop (suc fuel) args m ≡ parameter_loop fuel rest m'
unfolding parameter_loop
parameter_loop_step fuel [] m m' rest h e = absurd (omega arith)
parameter_loop_step fuel (c ∷ args) m m' rest h e = rw e

parameter_loop_last :
    (fuel : ℕ) (args : Bytes) (m m' : ParameterMap)
    → 0 < length args
    → parameter_round args m ≡ value (m', none)
    → parameter_loop (suc fuel) args m ≡ value m'
unfolding parameter_loop
parameter_loop_last fuel [] m m' h e = absurd (omega arith)
parameter_loop_last fuel (c ∷ args) m m' h e = rw e

-- One parameter at the end of the query.
parameter_loop-parameter :
    (fuel : ℕ) (key val : Bytes) (acc : ParameterMap)
    → IsParameter (key, val)
    → length (parameter_text key val) < npos
    → length (parameter_text key val) ≤ fuel
    → parameter_loop fuel (parameter_text key val) acc ≡ value (assign key (url_decode val) acc)
parameter_loop-parameter zero key val acc h fits enough =
    absurd (omega (arith, length-parameter_text key val))
parameter_loop-parameter (suc fuel) key val acc h fits enough =
    let size = length-parameter_text key val in
    parameter_loop_last fuel (parameter_text key val) acc _ (omega (arith, size)) (
      parameter_round_last (parameter_text key val) acc _ (parameter_text-Lacks key val h) fits
        (read_parameter_lem key val acc h.0 (omega (arith, size))))

parameter_loop-query :
    (fuel : ℕ) (key val : Bytes) (m acc : ParameterMap)
    → All IsParameter ((key, val) ∷ m)
    → length (query_text key val m) < npos
    → length (query_text key val m) ≤ fuel
    → parameter_loop fuel (query_text key val m) acc ≡ value (assign_all acc ((key, val) ∷ m))
unfolding query_text
parameter_loop-query fuel key val [] acc (h, hs) fits enough =
    parameter_loop-parameter fuel key val acc h fits enough
parameter_loop-query zero key val ((j, w) ∷ m) acc hs fits enough =
    absurd (omega (arith, length-query_text key val j w m))
parameter_loop-query (suc fuel) key val ((j, w) ∷ m) acc (h, hs) fits enough =
    let size = length-query_text key val j w m in
    let text = length-parameter_text key val in
    parameter_loop_step fuel _ acc _ _ (omega (arith, size)) (
      parameter_round_more (parameter_text key val) (query_text j w m) acc _
        (parameter_text-Lacks key val h) (omega (arith, size, text))
        (read_parameter_lem key val acc h.0 (omega (arith, size))))
    ∙ parameter_loop-query fuel j w m _ hs (omega (arith, size)) (omega (arith, size))

split_path-args :
    (path args : Bytes) (m : ParameterMap)
    → Lacks b'?' path
    → length path + length args + 1 < npos
    → parameter_loop (length args) args [] ≡ value m
    → split_path (path ++ (b'?' ∷ args)) ≡ value (path, m)
unfolding split_path
split_path-args path args m h fits read =
    let sep : Bytes = b'?' ∷ [] in
    let pos : add64 (length path) 1 ≡ length (path ++ sep) =
      omega (arith, length-append path sep) in
    rw (find_first_of-append b'?' path args h, pos)
      (ground (
        arith,
        read,
        substr_prefix path (b'?' ∷ args),
        substr_suffix (length (path ++ sep)) npos path sep args refl (omega arith),
      ))

-- A path with a query is cut at its first `?`, and each `key=value` of the query is assigned in order:
-- the key as it stands, and the value decoded.
pub split_path-query :
    (path key val : Bytes) (m : ParameterMap)
    → Lacks b'?' path
    → All IsParameter ((key, val) ∷ m)
    → length path + length (query_text key val m) + 1 < npos
    → split_path (path ++ (b'?' ∷ query_text key val m))
      ≡ value (path, assign_all [] ((key, val) ∷ m))
split_path-query path key val m h hs fits = split_path-args path (query_text key val m) _ h fits (
    parameter_loop-query (length (query_text key val m)) key val m [] hs (omega arith)
      (omega arith))

-- A path with no `?` has no parameters.
pub split_path_plain : (path : Bytes) → Lacks b'?' path → split_path path ≡ value (path, [])
unfolding split_path
split_path_plain path h = rw (find_first_of-Lacks b'?' path h)

-- No encoded text holds a separator of the query.
IsUrlByte-ne : (x c : ℕ) → (c ≡ b'&') ⊎ (c ≡ b'=') → IsUrlByte x → x ≢ c
unfolding isalnum
IsUrlByte-ne x c h u e = ground arith

All-IsUrlByte-Lacks : (c : ℕ) (s : Bytes) → (c ≡ b'&') ⊎ (c ≡ b'=') → All IsUrlByte s → Lacks c s
All-IsUrlByte-Lacks c [] h a = tt
All-IsUrlByte-Lacks c (x ∷ s) h (u, a) = (IsUrlByte-ne x c h u, All-IsUrlByte-Lacks c s h a)

url_encode-Lacks : (c : ℕ) (s : Bytes) → (c ≡ b'&') ⊎ (c ≡ b'=') → Lacks c (url_encode s)
url_encode-Lacks c s h =
    let (t, e, a, bound) = url_encode_form s in
    rw e (
      All-append (λ x. x ≢ c) t (0 ∷ []) (All-IsUrlByte-Lacks c t h a)
        ((λ zero_eq. omega arith), tt))

serialize_parameters-Lacks : (m : ParameterMap) → Lacks b'&' (serialize_parameters m)
unfolding serialize_parameters
serialize_parameters-Lacks [] = tt
serialize_parameters-Lacks ((key, val) ∷ m) =
    All-append (λ x. x ≢ b'&') (url_encode key) _ (url_encode-Lacks b'&' key (inl refl))
      (
        (λ e. omega arith),
        All-append (λ x. x ≢ b'&') (url_encode val) _ (url_encode-Lacks b'&' val (inl refl))
            (serialize_parameters-Lacks m),
      )

-- However many parameters are written, one is read back. Its key is the first key as it was encoded,
-- and its value is all that is written behind the first `=`.
split_path-serialize_query :
    (path key val : Bytes) (m : ParameterMap)
    → Lacks b'?' path
    → length path + length (serialize_query ((key, val) ∷ m)) < npos
    → split_path (path ++ serialize_query ((key, val) ∷ m))
      ≡ value (path, (url_encode key, url_decode (url_encode val ++ serialize_parameters m)) ∷ [])
unfolding serialize_query serialize_parameters assign
split_path-serialize_query path key val m h fits =
    let rest = url_encode val ++ serialize_parameters m in
    let one : IsParameter (url_encode key, rest) = (
      url_encode-Lacks b'=' key (inr refl),
      url_encode-Lacks b'&' key (inl refl),
      All-append (λ x. x ≢ b'&') (url_encode val) _ (url_encode-Lacks b'&' val (inl refl))
          (serialize_parameters-Lacks m),
    ) in
    split_path-args path (parameter_text (url_encode key) rest) _ h (omega arith)
      (parameter_loop-parameter _ (url_encode key) rest [] one (omega arith) (omega arith))
