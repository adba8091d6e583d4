-- ===== src/Network/Windows/Transfers.antt =====
-- network/win32: what `write` sends, and in which states `accept` suspends.
use cppio.Common.{
  ℕ, ◌+◌, ◌≤◌, ◌<◌, ◌≡◌, refl, arith, true, false, List, [], ◌∷◌, some, value, length, drop,
  drop_all, append-take-drop_at, All, map, ◌++◌,
}
use cppio.Common.Text.{Bytes}
use cppio.Runtime.Reactor.{run, ScheduleType, settle, Reactor, wait}
use cppio.Network.Windows.{
  Completion, Send, refuses, completes, write, AcceptAnswer, started, reset, refused, accept_loop,
  accept,
}

-- A completion tells no more bytes than were given.
abbrev pub IsHonest : Bytes → ℕ → List Send → Type 0
IsHonest text total [] = Unit
IsHonest text total (refuses ∷ rest) = Unit
IsHonest text total (completes c ∷ rest) =
    (total + c.bytes ≤ length text) × IsHonest text (total + c.bytes) rest

write_from :
    (text : Bytes) (total : ℕ) (sends : List Send) (v : ℕ)
    → total ≤ length text
    → IsHonest text total sends
    → (write text total sends).1 ≡ some (value v)
    → ((write text total sends).0 ≡ drop total text) × (v ≡ length text)
unfolding write
write_from text total [] v h k e = ground (arith, drop_all total text, h, e)
write_from text total (refuses ∷ rest) v h k e = ground (arith, drop_all total text, h, e)
write_from text total (completes c ∷ rest) v h k e = ground (
  arith,
  append-take-drop_at c.bytes total text,
  write_from text (total + c.bytes) rest v k.0 k.1,
  drop_all total text,
  h,
  e,
)

write_ends :
    (text : Bytes) (total : ℕ) (cs : List Completion)
    → total ≤ length text
    → length text ≤ total + length cs
    → IsHonest text total (map completes cs)
    → All (λ c. (0 < c.bytes) × (c.success ≡ true)) cs
    → (write text total (map completes cs)).1 ≡ some (value (length text))
unfolding write
write_ends text total [] h k honest p = ground (arith, h, k)
write_ends text total (c ∷ cs) h k honest p =
    ground
      (arith, write_ends text (total + c.bytes) cs honest.0, h, k, honest.0, honest.1, p.0, p.1)

-- On Windows: if each operation that `write` starts ends with success and takes a byte at least, and no more than
-- it was given, then `write` ends with the size of the text, and the whole text is sent, once and in order, within
-- as many operations as it has bytes.
write_sends :
    (text : Bytes) (cs : List Completion)
    → length text ≤ length cs
    → IsHonest text 0 (map completes cs)
    → All (λ c. (0 < c.bytes) × (c.success ≡ true)) cs
    → ((write text 0 (map completes cs)).1 ≡ some (value (length text)))
      × ((write text 0 (map completes cs)).0 ≡ text)
write_sends text cs k honest p =
    let ends = write_ends text 0 cs (omega arith) (omega (arith, k)) honest p in
    (ends, (write_from text 0 (map completes cs) (length text) (omega arith) honest ends).0)

abbrev pub IsReset : AcceptAnswer → Type 0
IsReset reset = Unit
IsReset (started success) = ⊥
IsReset refused = ⊥

accept_loop_runs :
    (sock : ℕ) (answers : List AcceptAnswer) (handles : List ℕ)
    → All (λ s. s ≡ run) (accept_loop sock answers run handles).1
unfolding accept_loop
accept_loop_runs sock [] handles = tt
accept_loop_runs sock (started true ∷ rest) handles = (refl, tt)
accept_loop_runs sock (started false ∷ rest) handles = (refl, accept_loop_runs sock rest handles)
accept_loop_runs sock (reset ∷ rest) handles = accept_loop_runs sock rest handles
accept_loop_runs sock (refused ∷ rest) handles = tt

accept_loop_fails :
    (sock : ℕ) (before rest : List AcceptAnswer) (state : ScheduleType) (handles : List ℕ)
    → All IsReset before
    → (accept_loop sock (before ++ started false ∷ rest) state handles).1
      ≡ state ∷ (accept_loop sock rest run handles).1
unfolding accept_loop
accept_loop_fails sock [] rest state handles h = refl
accept_loop_fails sock (reset ∷ before) rest state handles h =
    accept_loop_fails sock before rest state handles h.1
accept_loop_fails sock (started success ∷ before) rest state handles h = absurd h.0
accept_loop_fails sock (refused ∷ before) rest state handles h = absurd h.0

settle_runs :
    (t : ℕ) (r : Reactor) (states : List ScheduleType)
    → All (λ s. s ≡ run) states
    → All (λ s. (s ≡ run) × ((settle t s r).queue ≡ r.queue ++ t ∷ [])) states
unfolding settle
settle_runs t r [] h = tt
settle_runs t r (s ∷ states) h = ((h.0, rw h.0 refl), settle_runs t r states h.1)

-- On Windows, `accept` makes its task wait for the first operation only: when that fails, whatever the number of
-- resets before it, every operation that is started after it is one during which the task does not wait, and the
-- reactor puts the task back into the queue, which resumes the coroutine before the operation has ended.
accept-runs :
    (sock t : ℕ) (before rest : List AcceptAnswer) (handles : List ℕ) (r : Reactor)
    → All IsReset before
    → (later : List ScheduleType) × ((accept (some sock) (before ++ started false ∷ rest) handles).1
        ≡ wait ∷ later)
      × All (λ s. (s ≡ run) × ((settle t s r).queue ≡ r.queue ++ t ∷ [])) later
unfolding accept
accept-runs sock t before rest handles r h = (
  _,
  accept_loop_fails sock before rest wait (sock ∷ handles) h,
  settle_runs t r _ (accept_loop_runs sock rest (sock ∷ handles)),
)
