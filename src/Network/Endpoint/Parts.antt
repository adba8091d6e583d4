-- ===== src/Network/Endpoint/Parts.antt =====
-- endpoint.cpp: what the searches of `parse` find in an address with a port behind it.
use cppio.Common.{ℕ, zero, suc, ◌≡◌, refl, arith, [], ◌∷◌, ◌++◌, length, drop, some, none}
use cppio.Common.Text.{Bytes}
use cppio.Common.Searches.{Lacks}
use cppio.Network.Ip.{c_string}
use cppio.Network.Endpoint.{last_index_of, clear_back}

pub last_index_of-Lacks : (c : ℕ) (xs : Bytes) → Lacks c xs → last_index_of c xs ≡ none
unfolding last_index_of
last_index_of-Lacks c [] h = refl
last_index_of-Lacks c (x ∷ xs) h = ground (arith, last_index_of-Lacks c xs h.1)

pub last_index_of-append :
    (c : ℕ) (xs ys : Bytes) → Lacks c ys → last_index_of c (xs ++ c ∷ ys) ≡ some (length xs)
unfolding last_index_of
last_index_of-append c [] ys h = ground (arith, last_index_of-Lacks c ys h)
last_index_of-append c (x ∷ xs) ys h = ground (arith, last_index_of-append c xs ys h)

pub drop-suc-length : (xs ys : Bytes) (c : ℕ) → drop (suc (length xs)) (xs ++ c ∷ ys) ≡ ys
drop-suc-length [] ys c = refl
drop-suc-length (x ∷ xs) ys c = drop-suc-length xs ys c

-- The text between the brackets, as the C function is given it.
pub c_string-clear_back : (s : Bytes) (c : ℕ) → Lacks 0 s → c_string (clear_back (s ++ c ∷ [])) ≡ s
unfolding clear_back c_string
c_string-clear_back [] c h = refl
c_string-clear_back (zero ∷ []) c h = absurd (h.0 refl)
c_string-clear_back (suc x ∷ []) c h = refl
c_string-clear_back (zero ∷ y ∷ s) c h = absurd (h.0 refl)
c_string-clear_back (suc x ∷ y ∷ s) c h = rw (c_string-clear_back (y ∷ s) c h.1) refl

pub drop-clear_back :
    (x : ℕ) (s : Bytes) (c : ℕ) → drop 1 (clear_back (x ∷ (s ++ c ∷ []))) ≡ clear_back (s ++ c ∷ [])
unfolding clear_back
drop-clear_back x [] c = refl
drop-clear_back x (y ∷ s) c = refl
