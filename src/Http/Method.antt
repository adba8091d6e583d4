-- ===== src/Http/Method.antt =====
-- cppio/network/http/method.hpp: the request methods, their names, and the reading of a name.
use cppio.Common.{
  ◌≡◌, ◌≢◌, refl, sym, ap, ◌∙◌, ◌⊎◌, inl, inr, true, false, if◌then◌else◌, Bool-cases, arith,
}
use cppio.Common.Text.{Bytes, codes, bytes_eq}
use cppio.Common.Order.{bytes_eq_iff}

pub data Method : Type 0 where
  get head post put delete trace options connect patch : Method

unfoldable pub to_string : Method → Bytes
to_string get = codes "GET"
to_string head = codes "HEAD"
to_string post = codes "POST"
to_string put = codes "PUT"
to_string delete = codes "DELETE"
to_string trace = codes "TRACE"
to_string options = codes "OPTIONS"
to_string connect = codes "CONNECT"
to_string patch = codes "PATCH"

unfoldable pub create : Bytes → Method
create name =
    if bytes_eq name (to_string get)
    then get
    else if bytes_eq name (to_string head)
    then head
    else if bytes_eq name (to_string post)
    then post
    else if bytes_eq name (to_string put)
    then put
    else if bytes_eq name (to_string delete)
    then delete
    else if bytes_eq name (to_string trace)
    then trace
    else if bytes_eq name (to_string options)
    then options
    else if bytes_eq name (to_string connect)
    then connect
    else if bytes_eq name (to_string patch)
    then patch
    else get

-- Reading the name of a method gives the method back.
pub create-to_string : (m : Method) → create (to_string m) ≡ m
unfolding create to_string bytes_eq
create-to_string get = refl
create-to_string head = refl
create-to_string post = refl
create-to_string put = refl
create-to_string delete = refl
create-to_string trace = refl
create-to_string options = refl
create-to_string connect = refl
create-to_string patch = refl

-- A name that is read as `m` is the name of `m`, unless `m` is GET by default.
create_named : (name : Bytes) → (name ≡ to_string (create name)) ⊎ (create name ≡ get)
unfolding create
create_named name = ground (
  arith,
  bytes_eq_iff name (to_string get),
  bytes_eq_iff name (to_string head),
  bytes_eq_iff name (to_string post),
  bytes_eq_iff name (to_string put),
  bytes_eq_iff name (to_string delete),
  bytes_eq_iff name (to_string trace),
  bytes_eq_iff name (to_string options),
  bytes_eq_iff name (to_string connect),
  bytes_eq_iff name (to_string patch),
)

module _ {name : Bytes} where
  named_get : bytes_eq name (to_string get) ≡ true → name ≡ to_string (create name)
  named_get same =
      let e : name ≡ to_string get = (bytes_eq_iff name (to_string get)).0 same in
      e ∙ ap to_string (sym (ap create e ∙ create-to_string get))

  not_named :
      bytes_eq name (to_string get) ≡ false → create name ≡ get → (m : Method) → name ≢ to_string m
  not_named other default m e =
      let k : m ≡ get = sym (create-to_string m) ∙ ap create (sym e) ∙ default in
      cc (other, (bytes_eq_iff name (to_string get)).1 (e ∙ ap to_string k))

-- Each text is the name of the method that it is read as, or it is the name of no method and is read
-- as GET.
pub create_cases :
    (name : Bytes)
    → (name ≡ to_string (create name)) ⊎ ((create name ≡ get) × ((m : Method) → name ≢ to_string m))
create_cases name = elim (Bool-cases (bytes_eq name (to_string get))) [
  | inl same ↦ inl (named_get same)
  | inr other ↦ elim (create_named name) [
    | inl named ↦ inl named
    | inr default ↦ inr (default, not_named other default)
  ]
]
