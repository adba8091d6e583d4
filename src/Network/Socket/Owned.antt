-- ===== src/Network/Socket/Owned.antt =====
-- base_socket.cpp, network/posix: which descriptors stay open. A descriptor that the system gives is one
-- that is not open.
use cppio.Common.{
  ℕ, suc, zero, subst, sym, Option-cases, ◌≡◌, ◌≢◌, refl, ap, ◌∙◌, arith, Bool, true, false, List,
  [], ◌∷◌, Option, none, some, Outcome, value, error, network, system_error, ErrorCode,
  if◌then◌else◌, ◌⊎◌, inl, inr,
}
use cppio.Runtime.Sets.{contains, erase, erase_opened}
use cppio.Network.Socket.{
  Socket, opened, closed_fd, construct, destroy, move_assign, Answers, set_options, prepare, wrap,
  and_then, ConnectAnswer, connected, in_progress, refused, connect, create, bind, Transfer, moved,
  would_block, failed, send_loop, write_to,
}

abbrev pub IsClosed : ℕ → List ℕ → Type 0
IsClosed fd fds = contains fds fd ≡ false

-- What the system gives: a socket, and a duplicate that is another.
abbrev pub IsFresh : Option ℕ → Option ℕ → List ℕ → Type 0
IsFresh none dup fds = Unit
IsFresh (some sock) none fds = IsClosed sock fds
IsFresh (some sock) (some fd) fds = IsClosed sock fds × IsClosed fd (sock ∷ fds)

-- The answer owns all that was opened: an error leaves the descriptors as they were, and to destroy the
-- socket that was returned closes the others again.
abbrev pub Owns : List ℕ → Outcome Socket × List ℕ → Type 0
Owns fds (value s, left) = destroy s left ≡ fds
Owns fds (_, left) = left ≡ fds

wrap-Owns :
    (sock : ℕ) (a : Answers) (fds : List ℕ)
    → IsFresh (some sock) a.dup fds
    → Owns fds (wrap sock a (sock ∷ fds))
unfolding wrap construct destroy opened closed_fd
wrap-Owns sock a fds = go a.dup
  where
    go :
        (dup : Option ℕ)
        → IsFresh (some sock) dup fds
        → closed_fd (some sock) (closed_fd dup (opened dup (sock ∷ fds))) ≡ fds
    go none h = erase_opened sock fds h
    go (some fd) h = ap (erase sock) (erase_opened fd (sock ∷ fds) h.1) ∙ erase_opened sock fds h.0

set_options_cases :
    (sock : ℕ) (answers : List Bool) (fds : List ℕ)
    → (set_options sock answers fds ≡ (true, fds))
      ⊎ (set_options sock answers fds ≡ (false, erase sock fds))
unfolding set_options
set_options_cases sock [] fds = inl refl
set_options_cases sock (true ∷ answers) fds = set_options_cases sock answers fds
set_options_cases sock (false ∷ answers) fds = inr refl

prepare_set :
    (a : Answers) (sock : ℕ) (fds : List ℕ) (all_set : Bool) (left : List ℕ)
    → a.sock ≡ some sock
    → set_options sock a.options (sock ∷ fds) ≡ (all_set, left)
    → prepare a fds ≡ (if all_set then value sock else error (network system_error), left)
unfolding prepare
prepare_set a sock fds all_set left e h =
    ap (λ o. prepare (record a { sock = o }) fds) e
    ∙ ap (λ p. (if p.0 then value sock else error (network system_error), p.1)) h

-- A function that begins with the calls of `prepare` owns what it opened if the rest of it does.
prepare-Owns :
    (a : Answers) (fds : List ℕ) (next : ℕ → List ℕ → Outcome Socket × List ℕ)
    → IsFresh a.sock a.dup fds
    → ((sock : ℕ) → IsFresh (some sock) a.dup fds → Owns fds (next sock (sock ∷ fds)))
    → Owns fds (and_then (prepare a fds) next)
prepare-Owns a fds next h k = elim (Option-cases a.sock) [
  | inl no_socket ↦
      let refused : prepare a fds ≡ (error (network system_error), fds) =
        unfold prepare in ap (λ o. prepare (record a { sock = o }) fds) no_socket in
      unfold and_then in subst (λ p. Owns fds (and_then p next)) (sym refused) refl
  | inr (sock, e) ↦
      let fresh : IsFresh (some sock) a.dup fds = subst (λ o. IsFresh o a.dup fds) e h in
      elim (set_options_cases sock a.options (sock ∷ fds)) [
        | inl all_set ↦
            unfold and_then in
            subst (λ p. Owns fds (and_then p next))
              (sym (prepare_set a sock fds true (sock ∷ fds) e all_set)) (k sock fresh)
        | inr one_failed ↦
            unfold and_then in
            subst (λ p. Owns fds (and_then p next))
              (sym (prepare_set a sock fds false (erase sock (sock ∷ fds)) e one_failed))
              (erase_opened sock fds (fresh_sock sock a.dup fresh))
      ]
]
  where
    fresh_sock : (sock : ℕ) (dup : Option ℕ) → IsFresh (some sock) dup fds → IsClosed sock fds
    fresh_sock sock none h = h
    fresh_sock sock (some fd) h = h.0

-- The connection that is refused, and the one that epoll reports as failed.
abbrev pub is_lost : ConnectAnswer → Bool → Bool
is_lost connected success = false
is_lost refused success = true
is_lost in_progress success = if success then false else true

connect-Owns_socket :
    (a : Answers) (answer : ConnectAnswer) (success : Bool) (fds : List ℕ)
    → IsFresh a.sock a.dup fds
    → is_lost answer success ≡ false
    → Owns fds (connect a answer success fds)
unfolding connect
connect-Owns_socket a connected success fds h k =
    prepare-Owns a fds _ h (λ sock f. wrap-Owns sock a fds f)
connect-Owns_socket a in_progress true fds h k =
    prepare-Owns a fds _ h (λ sock f. wrap-Owns sock a fds f)
connect-Owns_socket a in_progress false fds h k = absurd (cc k)
connect-Owns_socket a refused success fds h k = absurd (cc k)

-- `tcp_socket::connect`, `tcp_listener::create` and `udp_socket::bind` own every descriptor that they open,
-- whether or not the socket is made and its options are set, if the system gives descriptors that are not open,
-- the connection is neither refused nor reported as failed, and the address can be bound.
pub connect-Owns :
    (a : Answers) (answer : ConnectAnswer) (success : Bool) (fds : List ℕ)
    → IsFresh a.sock a.dup fds
    → is_lost answer success ≡ false
    → Owns fds (connect a answer success fds)
      × Owns fds (create a true fds)
      × Owns fds (bind a true fds)
unfolding create bind
connect-Owns a answer success fds h k = (
  connect-Owns_socket a answer success fds h k,
  prepare-Owns a fds _ h (λ sock f. wrap-Owns sock a fds f),
  prepare-Owns a fds _ h (λ sock f. wrap-Owns sock a fds f),
)

-- The descriptor that stays open behind an error.
abbrev pub Leaks : ℕ → List ℕ → Outcome Socket × List ℕ → Type 0
Leaks sock fds r = (r.1 ≡ sock ∷ fds) × ((e : ErrorCode) × (r.0 ≡ error e))

prepare_ready :
    (a : Answers) (sock : ℕ) (fds : List ℕ) (next : ℕ → List ℕ → Outcome Socket × List ℕ)
    → a.sock ≡ some sock
    → set_options sock a.options (sock ∷ fds) ≡ (true, sock ∷ fds)
    → and_then (prepare a fds) next ≡ next sock (sock ∷ fds)
unfolding and_then
prepare_ready a sock fds next e all_set =
    ap (λ p. and_then p next) (prepare_set a sock fds true (sock ∷ fds) e all_set)

-- Once a descriptor is opened and all its options are set, it is leaked by `connect` where the connection is
-- refused or reported as failed, and by `tcp_listener::create` and `udp_socket::bind` where the address cannot
-- be bound: each then returns an error, and the descriptor stays open.
pub connect-Leaks :
    (a : Answers) (answer : ConnectAnswer) (success : Bool) (sock : ℕ) (fds : List ℕ)
    → a.sock ≡ some sock
    → set_options sock a.options (sock ∷ fds) ≡ (true, sock ∷ fds)
    → is_lost answer success ≡ true
    → Leaks sock fds (connect a answer success fds)
      × Leaks sock fds (create a false fds)
      × Leaks sock fds (bind a false fds)
unfolding connect create bind
connect-Leaks a answer success sock fds e all_set lost = (
  connect_lost answer success lost,
  rw (prepare_ready a sock fds _ e all_set) (refl, (_, refl)),
  rw (prepare_ready a sock fds _ e all_set) (refl, (_, refl)),
)
  where
    connect_lost :
        (answer : ConnectAnswer) (success : Bool)
        → is_lost answer success ≡ true
        → Leaks sock fds (connect a answer success fds)
    connect_lost connected success lost = absurd (cc lost)
    connect_lost in_progress true lost = absurd (cc lost)
    connect_lost in_progress false lost =
        rw (prepare_ready a sock fds _ e all_set) (refl, (_, refl))
    connect_lost refused success lost = rw (prepare_ready a sock fds _ e all_set) (refl, (_, refl))

send_loop_keep :
    (fd : ℕ) (answers : List (Transfer × Bool)) (fds : List ℕ) (r : Outcome ℕ)
    → IsClosed fd fds
    → (send_loop fd answers (fd ∷ fds)).0 ≡ some r
    → (send_loop fd answers (fd ∷ fds)).1 ≡ fds
unfolding send_loop
send_loop_keep fd [] fds r c h = absurd (cc h)
send_loop_keep fd ((failed, success) ∷ rest) fds r c h = erase_opened fd fds c
send_loop_keep fd ((moved (suc n), success) ∷ rest) fds r c h = erase_opened fd fds c
send_loop_keep fd ((moved zero, true) ∷ rest) fds r c h = send_loop_keep fd rest fds r c h
send_loop_keep fd ((moved zero, false) ∷ rest) fds r c h = erase_opened fd fds c
send_loop_keep fd ((would_block, true) ∷ rest) fds r c h = send_loop_keep fd rest fds r c h
send_loop_keep fd ((would_block, false) ∷ rest) fds r c h = erase_opened fd fds c

-- `udp_socket::write` closes the descriptor that it duplicates on every path on which it ends, however often
-- it waits.
write_to_keep :
    (fd : ℕ) (answers : List (Transfer × Bool)) (fds : List ℕ) (r : Outcome ℕ)
    → IsClosed fd fds
    → (write_to (some fd) answers fds).0 ≡ some r
    → (write_to (some fd) answers fds).1 ≡ fds
unfolding write_to
write_to_keep fd answers fds r c h = send_loop_keep fd answers fds r c h

-- Two sockets, of which one is assigned to the other by moving and the source is then destroyed: what stays
-- open is the reading descriptor of the source and the writing descriptor of the target, so the socket reads
-- from one connection and writes to another.
destroy-move_assign :
    (s₁ d₁ s₂ d₂ : ℕ)
    → s₁ ≢ d₁
    → s₁ ≢ s₂
    → s₁ ≢ d₂
    → d₁ ≢ s₂
    → d₁ ≢ d₂
    → s₂ ≢ d₂
    → (lhs rhs : Socket) → lhs ≡ record { in_fd = some s₁; out_fd = some d₁ }
    → rhs ≡ record { in_fd = some s₂; out_fd = some d₂ }
    → (destroy (move_assign lhs rhs).1 (s₁ ∷ d₁ ∷ s₂ ∷ d₂ ∷ []) ≡ d₁ ∷ s₂ ∷ [])
      × ((move_assign lhs rhs).0 ≡ record { in_fd = some s₂; out_fd = some d₁ })
unfolding destroy move_assign closed_fd erase
destroy-move_assign s₁ d₁ s₂ d₂ a b c d e f lhs rhs l r =
    rw (l, r) (ground (arith, a, b, c, d, e, f), refl)
