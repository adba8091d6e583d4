-- ===== src/Runtime/Ports/Registered.antt =====
-- epoll.cpp with the interest list of the kernel, which has one entry for each descriptor. `epoll_ctl` is a parameter:
-- a record of its calls, of the entries that it keeps, and of what its documentation says of both.
use cppio.Common.{
  ℕ, Bool, true, false, Option, none, some, ◌||◌, if◌then◌else◌, ◌≡◌, ◌==◌, Bool-cases, ◌&&◌, ◌≢◌,
  inl, arith, inr,
}
use cppio.Runtime.Ports.{Events, for_read, for_write, add_for_read, add_for_write}

-- What an entry keeps: the mask, and the number of the operation, its `data.ptr`.
abbrev pub Entry : Type 0
Entry = Events × ℕ

-- `change` is EPOLL_CTL_MOD and `insert` EPOLL_CTL_ADD, on a descriptor. Both may fail for other reasons, such as a
-- descriptor that is closed; a call that fails changes nothing.
pub record EpollCtl (K : Type 0) : Type 0 where
  pub entry : K → ℕ → Option Entry
  pub change : K → ℕ → Entry → Bool × K
  pub insert : K → ℕ → Entry → Bool × K
  -- a change wants an entry
  pub change_missing : (k : K) (fd : ℕ) (e : Entry) → entry k fd ≡ none → (change k fd e).0 ≡ false
  pub change_done :
      (k : K) (fd : ℕ) (e : Entry) (g : ℕ)
      → (change k fd e).0 ≡ true
      → entry (change k fd e).1 g ≡ (if g == fd then some e else entry k g)
  pub change_failed :
      (k : K) (fd : ℕ) (e : Entry) (g : ℕ)
      → (change k fd e).0 ≡ false
      → entry (change k fd e).1 g ≡ entry k g
  -- an insertion wants that there is none
  pub insert_present :
      (k : K) (fd : ℕ) (e x : Entry) → entry k fd ≡ some x → (insert k fd e).0 ≡ false
  pub insert_done :
      (k : K) (fd : ℕ) (e : Entry) (g : ℕ)
      → (insert k fd e).0 ≡ true
      → entry (insert k fd e).1 g ≡ (if g == fd then some e else entry k g)
  pub insert_failed :
      (k : K) (fd : ℕ) (e : Entry) (g : ℕ)
      → (insert k fd e).0 ≡ false
      → entry (insert k fd e).1 g ≡ entry k g

module _ {K : Type 0} (ctl : EpollCtl K) where
  -- The calls of `add_for_read` and `add_for_write`: a change, and an insertion if it fails.
  unfoldable pub enter : K → ℕ → Entry → Bool × Bool × K
  enter k fd e =
      let (changed, k') = ctl.change k fd e in
      let (inserted, k'') = ctl.insert k' fd e in
      if changed then (true, false, k') else (false, inserted, k'')

  -- `add_for_read` of a descriptor for an operation: its answer, and the list.
  unfoldable pub register_read : K → ℕ → ℕ → Bool × K
  register_read k fd operation =
      let (modified, added, after) = enter k fd (for_read, operation) in
      ((add_for_read modified added).1, after)

  -- `add_for_write`, whose answer is `none` where it has no return.
  unfoldable pub register_write : K → ℕ → ℕ → Option Bool × K
  register_write k fd operation =
      let (modified, added, after) = enter k fd (for_write, operation) in
      ((add_for_write modified added).1, after)

  -- Whether a call has entered the descriptor.
  abbrev has_entered : Bool × Bool × K → Bool
  has_entered x = x.0 || x.1

  -- If one of the calls succeeds, the descriptor has the new entry, and otherwise nothing changes.
  enter-entry :
      (k : K) (fd : ℕ) (e : Entry) (g : ℕ)
      → let after = enter k fd e in
        ctl.entry after.2 g
        ≡ (if has_entered after then (if g == fd then some e else ctl.entry k g) else ctl.entry k g)
  unfolding enter
  enter-entry k fd e g =
      let same = ctl.change_failed k fd e g in
      let k' = (ctl.change k fd e).1 in
      elim (Bool-cases (ctl.change k fd e).0) [
        | inl changed ↦ rw changed (ctl.change_done k fd e g changed)
        | inr missing ↦ elim (Bool-cases (ctl.insert k' fd e).0) [
          | inl inserted ↦
              ground (arith, missing, inserted, ctl.insert_done k' fd e g inserted, same missing)
          | inr refused ↦
              ground (arith, missing, refused, ctl.insert_failed k' fd e g refused, same missing)
        ]
      ]

  register_read-entry :
      (k : K) (fd operation : ℕ) (g : ℕ)
      → let (answer, after) = register_read k fd operation in
        ctl.entry after g
        ≡ (if answer && g == fd then some (for_read, operation) else ctl.entry k g)
  unfolding register_read add_for_read
  register_read-entry k fd operation g = ground (arith, enter-entry k fd (for_read, operation) g)

  register_write-entry :
      (k : K) (fd operation : ℕ) (g : ℕ)
      → let (answer, after) = register_write k fd operation in
        answer ≢ some false
        → ctl.entry after g ≡ (if g == fd then some (for_write, operation) else ctl.entry k g)
  unfolding register_write add_for_write
  register_write-entry k fd operation g ok =
      ground (arith, enter-entry k fd (for_write, operation) g, ok)

  -- A coroutine waits to read a descriptor, and another then waits to write one, and both are registered: each has
  -- its entry if the descriptors are two, as `m_socket` and `m_out_socket` are, and if they are one the second has
  -- taken the place of the first.
  pub register_read-register_write :
      (k : K) (fd gd reader writer : ℕ)
      → (register_read k fd reader).0 ≡ true
      → (register_write (register_read k fd reader).1 gd writer).0 ≢ some false
      → let after = (register_write (register_read k fd reader).1 gd writer).1 in
        (ctl.entry after gd ≡ some (for_write, writer))
        × (ctl.entry after fd
            ≡ (if fd == gd then some (for_write, writer) else some (for_read, reader)))
  register_read-register_write k fd gd reader writer first second =
      let between = (register_read k fd reader).1 in
      let one = register_read-entry k fd reader fd in
      let two = register_write-entry between gd writer gd second in
      let three = register_write-entry between gd writer fd second in
      ground (arith, one, two, three, first)

  -- No entry carries the operation, so that epoll has no event for it.
  abbrev pub IsSilent : K → ℕ → Type 0
  IsSilent k operation = (g : ℕ) (mask : Events) → ctl.entry k g ≢ some (mask, operation)

  -- Two coroutines wait to read one descriptor, one after the other, and both registrations are answered with true.
  -- The second has taken the place of the first, and if no entry carried the first before, none carries it then, so
  -- that no event of epoll can be of it.
  pub register_read-IsSilent :
      (k : K) (fd first second : ℕ)
      → first ≢ second
      → IsSilent k first
      → (register_read k fd first).0 ≡ true
      → (register_read (register_read k fd first).1 fd second).0 ≡ true
      → let after = (register_read (register_read k fd first).1 fd second).1 in
        (ctl.entry after fd ≡ some (for_read, second)) × IsSilent after first
  register_read-IsSilent k fd first second apart silent one two =
      let between = (register_read k fd first).1 in
      (
        ground (arith, register_read-entry between fd second fd, two),
        λ g mask e. ground (
          arith,
          register_read-entry between fd second g,
          register_read-entry k fd first g,
          silent g mask,
          one,
          two,
          e,
          apart,
        ),
      )
