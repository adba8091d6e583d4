-- ===== src/Network/Ip.antt =====
-- cppio/network/ip.cpp and ip.hpp: the addresses. The addresses in a `sockaddr_storage` are kept as
-- bytes, so that `htonl`, `htons` and their inverses write and read the bytes from high to low.
--
pub mod V4
pub mod V6
pub mod Filled
pub mod LongestRun
pub mod Compressed
pub mod Printed
use cppio.Common.{
  ℕ, zero, suc, ◌+◌, ◌-◌, ◌*◌, ◌/◌, ◌%◌, ◌^◌, Bool, true, false, not, ◌&&◌, ◌||◌, List, [], ◌∷◌,
  ◌++◌, Option, none, some, Outcome, value, error, network, bad_format, ltb, leb, ◌==◌,
  if◌then◌else◌, length, take, drop, get_or,
}
use cppio.Common.Text.{Bytes}

-- The four bytes of an `in_addr`, first to last.
pub record InAddr : Type 0 where
  pub a : ℕ
  pub b : ℕ
  pub c : ℕ
  pub d : ℕ

-- `sockaddr_storage`: the fields of `sockaddr_in` and `sockaddr_in6` that the program uses.
pub record Storage : Type 0 where
  pub family : ℕ
  pub port : ℕ × ℕ
  pub addr : InAddr
  pub addr6 : List ℕ
  pub scope_id : ℕ

abbrev pub af_inet : ℕ
af_inet = 2

abbrev pub af_inet6 : ℕ
af_inet6 = 10

unfoldable pub htons : ℕ → ℕ × ℕ
htons x = (x / 256 % 256, x % 256)

unfoldable pub ntohs : ℕ × ℕ → ℕ
ntohs (high, low) = high * 256 + low

unfoldable pub htonl : ℕ → InAddr
htonl x = record { a = x / 2 ^ 24 % 256; b = x / 2 ^ 16 % 256; c = x / 2 ^ 8 % 256; d = x % 256 }

unfoldable pub ntohl : InAddr → ℕ
ntohl x = x.a * 2 ^ 24 + x.b * 2 ^ 16 + x.c * 2 ^ 8 + x.d

-- The characters of a `std::string` up to its first NUL, as `c_str()` hands them to a C function.
unfoldable pub c_string : Bytes → Bytes
c_string [] = []
c_string (zero ∷ s) = []
c_string (suc c ∷ s) = suc c ∷ c_string s

-- The last byte of a text that is not empty.
unfoldable pub back : Bytes → ℕ
back [] = 0
back (x ∷ []) = x
back (x ∷ y ∷ s) = back (y ∷ s)
