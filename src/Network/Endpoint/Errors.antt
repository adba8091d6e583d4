-- ===== src/Network/Endpoint/Errors.antt =====
-- endpoint.cpp: what `parse` does with a port that is no number.
use cppio.Common.{ℕ, ◌≡◌, ◌≢◌, refl, arith, List, ◌∷◌, ◌++◌, none, Option, false, terminate, ◌==◌}
use cppio.Common.Text.{Bytes}
use cppio.Common.Searches.{Lacks}
use cppio.Common.Decimal.{stoul}
use cppio.Network.Ip.{InAddr, c_string, back}
use cppio.Network.Ip.Printed.{back-append}
use cppio.Network.Endpoint.{parse_port, parse}
use cppio.Network.Endpoint.Parts.{last_index_of-append, drop-suc-length}

-- A text whose last colon is followed by something that `std::stoul` refuses, read together with the bytes
-- that lie behind the view, and which does not end with a bracket, ends the process: the exception leaves
-- a function that is marked `noexcept`. The address in front of the colon is not looked at.
pub parse_bad_port :
    (pton4 : Bytes → Option InAddr) (pton6 : Bytes → Option (List ℕ)) (behind host port : Bytes)
    → Lacks b':' port
    → back (b':' ∷ port) ≢ b']'
    → stoul (c_string (port ++ behind)) ≡ none
    → parse pton4 pton6 behind (host ++ b':' ∷ port) ≡ terminate
unfolding parse parse_port
parse_bad_port pton4 pton6 behind host port lacks unclosed bad =
    let found = last_index_of-append b':' host port lacks in
    let last : (back (host ++ b':' ∷ port) == b']') ≡ false =
      ground (arith, unclosed, back-append host b':' port) in
    rw (parse, found, last, parse_port, drop-suc-length host port b':', bad) refl
