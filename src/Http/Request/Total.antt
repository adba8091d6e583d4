-- ===== src/Http/Request/Total.antt =====
-- request.inl: the loop over the parameters ends, and so does `create`, on every text.
use cppio.Http.Response.{headers_or_error, headers_or_error-ne-diverge}
use cppio.Http.Message.Total.{
  split_head-ne-diverge, split_line-ne-diverge, length-split_head, length-split_line,
}
use cppio.Common.{
  terminate, inl, inr, ◌∷◌, Bool-cases, [], ℕ, zero, suc, ◌<◌, ◌≤◌, ◌≡◌, ◌≢◌, refl, arith, length,
  Outcome, value, diverge, >>=-eq-value, take, some, ◌⊎◌, drop, Option-cases, Option,
  >>=-ne-diverge, ◌==◌, ◌>>=◌, none, error,
}
use cppio.Common.Text.{Bytes, npos, add64, substr, find_first_of, to_pos, index_of}
use cppio.Common.Searches.{length-substr, index_of-lt-length}
use cppio.Http.Headers
use cppio.Http.Message.{split_head, split_line}
use cppio.Http.Request.{
  ParameterMap, read_parameter, parameter_round, parameter_loop, split_path, create,
}

find_first_of_small :
    (text : Bytes) (c : ℕ)
    → length text < npos
    → (find_first_of text c 0 ≡ npos) ⊎ (find_first_of text c 0 < length text)
unfolding find_first_of to_pos
find_first_of_small text c fits = elim (Option-cases (index_of c text)) [
  | inl missing ↦ rw missing (inl refl)
  | inr (i, found) ↦ rw found (inr (omega (arith, index_of-lt-length c text i found)))
]

read_parameter-ne-diverge : (text : Bytes) (m : ParameterMap) → read_parameter text m ≢ diverge
unfolding read_parameter substr
read_parameter-ne-diverge text m h = ground arith

parameter_round-ne-diverge : (args : Bytes) (m : ParameterMap) → parameter_round args m ≢ diverge
unfolding parameter_round substr
parameter_round-ne-diverge args m h =
    ground (arith, read_parameter-ne-diverge (take (find_first_of args b'&' 0) (drop 0 args)) m)

parameter_round_shrinks :
    (args : Bytes) (m m' : ParameterMap) (rest : Bytes)
    → length args < npos
    → parameter_round args m ≡ value (m', some rest)
    → length rest < length args
unfolding parameter_round
parameter_round_shrinks args m m' rest fits h =
    let pos = find_first_of args b'&' 0 in
    let (text, s1, h1) = >>=-eq-value (substr args 0 pos) _ h in
    let (n, s2, h2) = >>=-eq-value (read_parameter text m) _ h1 in
    let (t, s3, h3) = >>=-eq-value (substr args (add64 pos 1) npos) _ h2 in
    ground (arith, find_first_of_small args b'&' fits, length-substr args (add64 pos 1) npos s3, h3)

parameter_loop-ne-diverge :
    (fuel : ℕ) (args : Bytes) (m : ParameterMap)
    → length args < npos
    → length args ≤ fuel
    → parameter_loop fuel args m ≢ diverge
unfolding parameter_loop
parameter_loop-ne-diverge fuel [] m fits enough h = cc
parameter_loop-ne-diverge zero (c ∷ args) m fits enough h = absurd (omega arith)
parameter_loop-ne-diverge (suc fuel) (c ∷ args) m fits enough h =
    go (parameter_round (c ∷ args) m) (parameter_round-ne-diverge (c ∷ args) m)
      (λ m' rest. parameter_round_shrinks (c ∷ args) m m' rest fits)
      (λ rest m' k. parameter_loop-ne-diverge fuel rest m' (omega arith) (omega arith)) h
  where
    go :
        (r : Outcome (ParameterMap × Option Bytes))
        → r ≢ diverge
        → ((m' : ParameterMap) (rest : Bytes)
            → r ≡ value (m', some rest)
            → length rest < suc (length args))
        → ((rest : Bytes) (m' : ParameterMap)
            → length rest < suc (length args)
            → parameter_loop fuel rest m' ≢ diverge)
        → (r >>= λ n. elim n.1 [ none ↦ value n.0 | some rest ↦ parameter_loop fuel rest n.0 ])
          ≢ diverge
    go (value (m', none)) a b next e = cc
    go (value (m', some rest)) a b next e = next rest m' (b m' rest refl) e
    go (error code) a b next e = cc
    go terminate a b next e = cc
    go diverge a b next e = absurd (a refl)

substr-ne-diverge : (text : Bytes) (pos n : ℕ) → substr text pos n ≢ diverge
unfolding substr
substr-ne-diverge text pos n h = ground arith

split_path-ne-diverge : (path : Bytes) → length path < npos → split_path path ≢ diverge
unfolding split_path
split_path-ne-diverge path fits = elim (Bool-cases (find_first_of path b'?' 0 == npos)) [
  | inl missing ↦ rw missing (λ h. cc)
  | inr found ↦ rw found (
      >>=-ne-diverge (substr path (add64 (find_first_of path b'?' 0) 1) npos) _
        (substr-ne-diverge path _ npos)
        λ args e.
          >>=-ne-diverge (parameter_loop (length args) args []) _
            (parameter_loop-ne-diverge (length args) args []
              (omega (arith, length-substr path _ npos e)) (omega arith))
            λ m e1.
              >>=-ne-diverge (substr path 0 (find_first_of path b'?' 0)) _
                (substr-ne-diverge path 0 _) λ bare e2 h. cc)
]

-- `create` ends on every text that fits in memory.
pub create-ne-diverge_request : (text : Bytes) → length text < npos → create text ≢ diverge
unfolding create
create-ne-diverge_request text fits =
    >>=-ne-diverge (split_head text) _ (split_head-ne-diverge text) λ head e.
      >>=-ne-diverge (split_line head.0) _ (split_line-ne-diverge head.0) λ parts e1.
        >>=-ne-diverge (headers_or_error (Headers.create head.1)) _
          (headers_or_error-ne-diverge _ (
            Headers.Loop.create-ne-diverge head.1
              (omega (arith, (length-split_head text head.0 head.1 e).1))))
          λ headers e2.
            >>=-ne-diverge (split_path parts.1) _
              (split_path-ne-diverge parts.1 (
                omega (
                  arith,
                  (length-split_head text head.0 head.1 e).0,
                  length-split_line head.0 parts.0 parts.1 parts.2 e1,
                )))
              λ query e3 h. cc
