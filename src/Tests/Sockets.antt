-- ===== src/Tests/Sockets.antt =====
-- Runs of base_socket.cpp and of network/posix.

use cppio.Network.Socket.Exactly.{reads, fill_exactly, sum_taken, IsFitting, fill_exactly_fills}
use cppio.Common.{◌≡◌, refl, arith, true, false, [], ◌∷◌, List, some, value, Bool, All, ◌≤◌}
use cppio.Common.Text.{codes}
use cppio.Runtime.Sets.{contains}
use cppio.Network.Socket.{
  Socket, Answers, connected, refused, connect, create, bind, set_options, moved, would_block,
  write, read_exactly, taken, is_failed, Transfer,
}
use cppio.Network.Socket.Owned.{Owns, Leaks, connect-Owns, connect-Leaks}
use cppio.Network.Socket.Stream.{write_total}

abbrev answers : Answers
answers = record { sock = some 5; options = true ∷ true ∷ true ∷ []; dup = some 6 }

connect-Owns_example :
    Owns (3 ∷ []) (connect answers connected true (3 ∷ []))
    × Owns (3 ∷ []) (create answers true (3 ∷ []))
    × Owns (3 ∷ []) (bind answers true (3 ∷ []))
connect-Owns_example = connect-Owns answers connected true (3 ∷ []) fresh refl
  where
    fresh : (contains (3 ∷ []) 5 ≡ false) × (contains (5 ∷ 3 ∷ []) 6 ≡ false)
    fresh = unfold contains in (refl, refl)

connect-Leaks_example :
    Leaks 5 (3 ∷ []) (connect answers refused true (3 ∷ []))
    × Leaks 5 (3 ∷ []) (create answers false (3 ∷ []))
    × Leaks 5 (3 ∷ []) (bind answers false (3 ∷ []))
connect-Leaks_example =
    connect-Leaks answers refused true 5 (3 ∷ []) refl (unfold set_options in refl) refl

abbrev first_socket : Socket
first_socket = record { in_fd = some 1; out_fd = some 2 }

abbrev second_socket : Socket
second_socket = record { in_fd = some 3; out_fd = some 4 }

abbrev halting : List (Transfer × Bool)
halting = (moved 2, true) ∷ (would_block, true) ∷ (moved 1, true) ∷ []

halting_sends : (sum_taken halting ≡ 3) × All (λ a. (is_failed a.0 ≡ false) × (a.1 ≡ true)) halting
unfolding taken is_failed
halting_sends = (refl, ((refl, refl), ((refl, refl), ((refl, refl), tt))))

write_total_example : write (codes "abc") 0 halting ≡ (codes "abc", some (value 3))
write_total_example = write_total (codes "abc") halting [] halting_sends.0 halting_sends.1

halting_run : (write (codes "abc") 0 halting).1 ≡ some (value 3)
unfolding write taken is_failed
halting_run = refl

read_exactly_run : read_exactly 3 0 (value 2 ∷ value 1 ∷ []) ≡ some (value 0)
unfolding read_exactly
read_exactly_run = refl

-- Three bytes of a stream of four, in two pieces.
abbrev pieces : List (Transfer × Bool)
pieces = (moved 2, true) ∷ (would_block, true) ∷ (moved 1, true) ∷ []

pieces_fit : (3 ≤ sum_taken pieces) × IsFitting 3 0 pieces
unfolding taken
pieces_fit = (omega arith, (omega arith, (omega arith, (omega arith, tt))))

pieces_arrive : All (λ a. (is_failed a.0 ≡ false) × (a.1 ≡ true)) pieces
unfolding is_failed
pieces_arrive = ((refl, refl), ((refl, refl), ((refl, refl), tt)))

fill_exactly_fills_example :
    (fill_exactly (codes "abcd") 3 0 pieces (codes "12345") ≡ (some (value 0), codes "abc45"))
    × (read_exactly 3 0 (reads pieces) ≡ some (value 0))
fill_exactly_fills_example =
    fill_exactly_fills (codes "abcd") 3 pieces (codes "12345") (omega arith) (omega arith)
      pieces_fit.0 pieces_fit.1 pieces_arrive
