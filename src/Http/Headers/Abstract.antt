-- ===== src/Http/Headers/Abstract.antt =====
-- header_map.hpp: what a header map promises. Its abstract view is the list of the values of each key, in the
-- order in which they were added; the order of the keys is forgotten.
use cppio.Common.{
  false, List, [], ◌∷◌, ◌++◌, ◌≡◌, refl, sym, ap, ◌∙◌, subst, arith, if◌then◌else◌, Bool-cases, inl,
  inr, ◌≢◌,
}
use cppio.Common.Text.{Bytes, bytes_eq, bytes_less}
use cppio.Common.Order.{bytes_less_antisymm, bytes_eq_refl, bytes_less-ne}
use cppio.Http.Headers.{HeaderMap, add, get, serialize}
use cppio.Http.Headers.Multimap.{IsSorted, add-IsSorted, get-add, get_above}

-- The values of each key.
abbrev pub View : Type 0
View = Bytes → List Bytes

abbrev pub view : HeaderMap → View
view m key = get key m

-- The abstract operation: the value goes behind those of its key.
unfoldable pub push : Bytes → Bytes → View → View
push key val values other = if bytes_eq key other then values other ++ val ∷ [] else values other

-- The calls of `add`, first to last, on the map and on its view.
unfoldable pub add_all : List (Bytes × Bytes) → HeaderMap → HeaderMap
add_all [] m = m
add_all ((key, val) ∷ adds) m = add_all adds (add key val m)

unfoldable pub push_all : List (Bytes × Bytes) → View → View
push_all [] values = values
push_all ((key, val) ∷ adds) values = push_all adds (push key val values)

push_all_cong :
    (adds : List (Bytes × Bytes)) (f g : View)
    → ((key : Bytes) → f key ≡ g key)
    → (key : Bytes) → push_all adds f key ≡ push_all adds g key
unfolding push_all push
push_all_cong [] f g h key = h key
push_all_cong ((j, val) ∷ adds) f g h key =
    push_all_cong adds (push j val f) (push j val g) (λ k. rw (h k) refl) key

add_all-IsSorted :
    (adds : List (Bytes × Bytes)) (m : HeaderMap) → IsSorted m → IsSorted (add_all adds m)
unfolding add_all
add_all-IsSorted [] m h = h
add_all-IsSorted ((key, val) ∷ adds) m h =
    add_all-IsSorted adds (add key val m) (add-IsSorted key val m h)

view-add_all :
    (adds : List (Bytes × Bytes)) (m : HeaderMap)
    → IsSorted m
    → (key : Bytes) → view (add_all adds m) key ≡ push_all adds (view m) key
unfolding add_all push_all push
view-add_all [] m h key = refl
view-add_all ((j, val) ∷ adds) m h key =
    view-add_all adds (add j val m) (add-IsSorted j val m h) key
    ∙ push_all_cong adds (view (add j val m)) (push j val (view m)) (λ k. get-add k j val m h) key

-- The first key of a sorted map is not above a key that has values.
first_key :
    (key j w : Bytes) (m : HeaderMap)
    → IsSorted ((j, w) ∷ m)
    → get key ((j, w) ∷ m) ≢ []
    → bytes_less key j ≡ false
unfolding get
first_key key j w m h n = elim (Bool-cases (bytes_less key j)) [
  | inl below ↦ absurd (n (rw (bytes_less-ne key j below) (get_above key j m below h.0)))
  | inr above ↦ above
]

get_nil : (key : Bytes) → get key [] ≡ []
unfolding get
get_nil key = refl

get_first : (key w : Bytes) (m : HeaderMap) → get key ((key, w) ∷ m) ≡ w ∷ get key m
unfolding get
get_first key w m = rw (bytes_eq_refl key) refl

same_rest :
    (j v w key : Bytes) (m n : HeaderMap)
    → get key ((j, v) ∷ m) ≡ get key ((j, w) ∷ n)
    → get key m ≡ get key n
unfolding get
same_rest j v w key m n e = ground (arith, e)

-- Two maps that begin with the same key and have the same view have the same first value, and the same view
-- behind it.
same_first :
    (j v w : Bytes) (m n : HeaderMap)
    → ((key : Bytes) → view ((j, v) ∷ m) key ≡ view ((j, w) ∷ n) key)
    → (v ≡ w) × ((key : Bytes) → view m key ≡ view n key)
same_first j v w m n h =
    let first : v ∷ get j m ≡ w ∷ get j n = sym (get_first j v m) ∙ h j ∙ get_first j w n in
    (cc first, (λ key. same_rest j v w key m n (h key)))

-- A sorted map is determined by its view.
view-injective :
    (m n : HeaderMap) → IsSorted m → IsSorted n → ((key : Bytes) → view m key ≡ view n key) → m ≡ n
view-injective [] [] s t h = refl
view-injective [] ((j, w) ∷ n) s t h = absurd (cc (h j, get_first j w n, get_nil j))
view-injective ((i, v) ∷ m) [] s t h = absurd (cc (h i, get_first i v m, get_nil i))
view-injective ((i, v) ∷ m) ((j, w) ∷ n) s t h =
    let below = first_key i j w n t (λ e. cc (h i, get_first i v m, e)) in
    let above = first_key j i v m s (λ e. cc (h j, get_first j w n, e)) in
    let same : i ≡ j = bytes_less_antisymm i j below above in
    let both =
      same_first j v w m n
        (subst (λ x. (key : Bytes) → view ((x, v) ∷ m) key ≡ view ((j, w) ∷ n) key) same h) in
    let left : m ≡ n = view-injective m n s.1 t.1 both.1 in cc (same, both.0, left)

-- The map refines its abstract view: whatever headers are added to a sorted map, in any order, the values of
-- every key are those that the view gives, in the order in which they were added; and if two sequences of calls
-- give the same values to every key, they leave the same map, so the same text when it is written.
pub get-add_all :
    (adds others : List (Bytes × Bytes)) (m : HeaderMap)
    → IsSorted m
    → ((key : Bytes) → push_all adds (view m) key ≡ push_all others (view m) key)
    → ((key : Bytes) → get key (add_all adds m) ≡ push_all adds (view m) key)
      × (add_all adds m ≡ add_all others m)
      × (serialize (add_all adds m) ≡ serialize (add_all others m))
get-add_all adds others m h k =
    let same =
      view-injective (add_all adds m) (add_all others m) (add_all-IsSorted adds m h)
        (add_all-IsSorted others m h)
        (λ key. view-add_all adds m h key ∙ k key ∙ sym (view-add_all others m h key)) in
    (view-add_all adds m h, same, ap serialize same)
