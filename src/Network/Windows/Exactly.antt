-- ===== src/Network/Windows/Exactly.antt =====
-- network/win32/tcp_socket.cpp with tcp_socket.cpp: `read_exactly` over the reads of Windows.
use cppio.Common.{
  ℕ, ◌+◌, ◌≡◌, ◌≢◌, refl, arith, true, false, List, [], ◌∷◌, map, none, some, Outcome, value,
  diverge, All, ◌⊎◌, inl, inr,
}
use cppio.Network.Socket.{read_exactly}
use cppio.Network.Windows.{Completion, read}

-- What a read answers whose operation has started and has ended.
abbrev pub answer : Completion → Outcome ℕ
answer c = elim (read true (some c)).0 [ none ↦ diverge | some o ↦ o ]

-- The operation has failed, or the peer has closed the connection, for which it ends with no bytes.
abbrev pub IsEmpty : Completion → Type 0
IsEmpty c = (c.success ≡ false) ⊎ (c.bytes ≡ 0)

answer_empty : (c : Completion) → IsEmpty c → answer c ≡ value 0
unfolding read
answer_empty c (inl failed) = rw failed refl
answer_empty c (inr nothing) = ground (arith, nothing)

-- On Windows, while bytes are missing and every read that `read_exactly` starts fails or meets the end of the
-- stream, it never ends, however many reads it starts: `read` answers such an end with the size zero and no error.
read_exactly-read :
    (size total : ℕ) (cs : List Completion)
    → total ≢ size
    → All IsEmpty cs
    → read_exactly size total (map answer cs) ≡ none
unfolding read_exactly
read_exactly-read size total [] n h = ground (arith, n)
read_exactly-read size total (c ∷ cs) n h =
    rw (answer_empty c h.0)
      (ground (arith, read_exactly-read size (total + 0) cs (λ e. n (omega (arith, e))) h.1, n))
