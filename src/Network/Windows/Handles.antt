-- ===== src/Network/Windows/Handles.antt =====
-- network/win32: which handles stay open. A handle that the system gives is one that is not open.
use cppio.Common.{
  ℕ, ◌≡◌, refl, Bool, true, false, List, [], ◌∷◌, Option, none, some, Outcome, value, error,
  ErrorCode,
}
use cppio.Runtime.Reactor.{ScheduleType, run, wait}
use cppio.Network.Socket.Owned.{IsClosed}
use cppio.Runtime.Sets.{erase_opened}
use cppio.Network.Windows.{
  Completion, ConnectCalls, finish_connect, connect, create, bind, AcceptAnswer, started, reset,
  refused, accept_loop, accept,
}

-- The system has no handle to give, or one that is not open.
abbrev pub IsNew : Option ℕ → List ℕ → Type 0
IsNew none handles = Unit
IsNew (some sock) handles = IsClosed sock handles

-- An error leaves the handles as they were; a socket that is returned, or that a coroutine holds which is
-- suspended, is open beside them.
abbrev pub Answers : Option ℕ → List ℕ → Option (Outcome ℕ) → List ℕ → Type 0
Answers sock handles none left = (s : ℕ) × (sock ≡ some s) × (left ≡ s ∷ handles)
Answers sock handles (some (value s)) left = (sock ≡ some s) × (left ≡ s ∷ handles)
Answers sock handles (some _) left = left ≡ handles

module _ (sock : ℕ) (handles : List ℕ) (new : IsClosed sock handles) where
  finish-Answers :
      (completion : Option Completion)
      → Answers
          (some sock)
          handles
          (finish_connect sock completion (sock ∷ handles)).answer
          (finish_connect sock completion (sock ∷ handles)).handles
  unfolding finish_connect
  finish-Answers none = (sock, refl, refl)
  finish-Answers (some c) = go c.success
    where
      go :
          (success : Bool)
          → Answers
              (some sock)
              handles
              (finish_connect sock (some (record c { success = success })) (sock ∷ handles)).answer
              (finish_connect sock (some (record c { success = success })) (sock ∷ handles)).handles
      go true = (refl, refl)
      go false = erase_opened sock handles new

  connect-Answers_sock :
      (bound extension begun : Bool) (completion : Option Completion)
      → let r =
          connect
            (record { sock = some sock; bound = bound; extension = extension; started = begun })
            completion
            handles in
        Answers (some sock) handles r.answer r.handles
  unfolding connect
  connect-Answers_sock false extension begun completion = erase_opened sock handles new
  connect-Answers_sock true false begun completion = erase_opened sock handles new
  connect-Answers_sock true true false completion = erase_opened sock handles new
  connect-Answers_sock true true true completion = finish-Answers completion

  accept_loop-Answers :
      (answers : List AcceptAnswer) (state : ScheduleType)
      → let r = accept_loop sock answers state (sock ∷ handles) in
        Answers (some sock) handles r.0.answer r.0.handles
  unfolding accept_loop
  accept_loop-Answers [] state = (sock, refl, refl)
  accept_loop-Answers (started true ∷ rest) state = (refl, refl)
  accept_loop-Answers (started false ∷ rest) state = accept_loop-Answers rest run
  accept_loop-Answers (reset ∷ rest) state = accept_loop-Answers rest state
  accept_loop-Answers (refused ∷ rest) state = erase_opened sock handles new

-- A socket that is returned is the only one more that is open; with an error the handle that the system gave stays
-- open all the same.
abbrev pub LeavesOpen : Option ℕ → Bool → List ℕ → Outcome ℕ × List ℕ → Type 0
LeavesOpen none bound handles r = ((e : ErrorCode) × (r.0 ≡ error e)) × (r.1 ≡ handles)
LeavesOpen (some sock) true handles r = (r.0 ≡ value sock) × (r.1 ≡ sock ∷ handles)
LeavesOpen (some sock) false handles r =
    ((e : ErrorCode) × (r.0 ≡ error e)) × (r.1 ≡ sock ∷ handles)

create-LeavesOpen :
    (sock : Option ℕ) (bound : Bool) (handles : List ℕ)
    → LeavesOpen sock bound handles (create sock bound handles)
      × LeavesOpen sock bound handles (bind sock bound handles)
unfolding create bind
create-LeavesOpen none bound handles = (((_, refl), refl), ((_, refl), refl))
create-LeavesOpen (some sock) true handles = ((refl, refl), (refl, refl))
create-LeavesOpen (some sock) false handles = (((_, refl), refl), ((_, refl), refl))

-- On Windows, `tcp_socket::connect` and `tcp_listener::accept` leak no handle: for every answer of the calls and
-- every end of the operation, an error leaves the open handles as they were, and a socket that is returned, or
-- held by a coroutine that is suspended, is the only one more. `tcp_listener::create` and `udp_socket::bind`,
-- where the address cannot be bound, return an error and leave the handle open that the system gave.
pub connect-Answers :
    (calls : ConnectCalls) (completion : Option Completion) (answers : List AcceptAnswer)
    (handles : List ℕ)
    → IsNew calls.sock handles
    → Answers calls.sock handles
        (connect calls completion handles).answer
        (connect calls completion handles).handles
      × Answers calls.sock handles
          (accept calls.sock answers handles).0.answer
          (accept calls.sock answers handles).0.handles
      × LeavesOpen calls.sock calls.bound handles (create calls.sock calls.bound handles)
      × LeavesOpen calls.sock calls.bound handles (bind calls.sock calls.bound handles)
connect-Answers calls completion answers handles h =
    let both = go calls.sock h in
    let opened = create-LeavesOpen calls.sock calls.bound handles in
    (both.0, both.1, opened.0, opened.1)
  where
    go :
        (sock : Option ℕ)
        → IsNew sock handles
        → Answers sock handles
            (connect (record calls { sock = sock }) completion handles).answer
            (connect (record calls { sock = sock }) completion handles).handles
          × Answers sock handles
              (accept sock answers handles).0.answer
              (accept sock answers handles).0.handles
    go none new = unfold connect accept in (refl, refl)
    go (some sock) new =
        unfold accept in
        (
          connect-Answers_sock sock handles new calls.bound calls.extension calls.started
              completion,
          accept_loop-Answers sock handles new answers wait,
        )
