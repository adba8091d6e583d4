-- ===== src/Network/Windows/Stuck.antt =====
-- network/win32 with basic_task.cpp: an operation that the system refuses, in a coroutine that another awaits.
use cppio.Common.{ℕ, ◌≡◌, refl, true, false, List, ◌∷◌, none, some, subst, arith, ap}
use cppio.Runtime.Sets.{contains, update}
use cppio.Runtime.Timer.{has}
use cppio.Runtime.Reactor.{ScheduleType, run, wait, Reactor, Body, is_waiting}
use cppio.Runtime.Reactor.Lost.{IsLost, Reach, Reach-IsLost}
use cppio.Runtime.Task.{Resumed, returned}
use cppio.Runtime.Task
use cppio.Runtime.Task.Chain.{one_step_returned}
use cppio.Network.Ip.{Storage}
use cppio.Network.Endpoint.{Endpoint}
use cppio.Network.Windows.{connect, read, read_from, write_to}

-- The operations that make the task wait before the call that may refuse.
pub data Operation : Type 0 where
  connects : (sock : ℕ) (handles : List ℕ) → Operation
  reads : Operation
  reads_from : (from : Storage) (remote : Endpoint) → Operation
  writes_to : Operation

-- The state of the task behind an operation that is refused.
abbrev pub refused_state : Operation → ScheduleType
refused_state (connects sock handles) =
    (connect (record { sock = some sock; bound = true; extension = true; started = false }) none
      handles).state
refused_state reads = (read false none).1
refused_state (reads_from from remote) = (read_from false none from remote).1
refused_state writes_to = (write_to false none).1

refused_state_lem : (operation : Operation) → refused_state operation ≡ wait
unfolding connect read read_from write_to
refused_state_lem (connects sock handles) = refl
refused_state_lem reads = refl
refused_state_lem (reads_from from remote) = refl
refused_state_lem writes_to = refl

refused-IsLost_now :
    (operation : Operation) (a : ℕ) (r : Reactor)
    → contains r.active a ≡ true
    → contains r.queue a ≡ false
    → has r.timers a ≡ false
    → contains r.interest a ≡ false
    → IsLost a (record r { states = update r.states a (refused_state operation) })
unfolding update is_waiting
refused-IsLost_now operation a r act q h i =
    (act, ground (arith, refused_state_lem operation), q, h, i)

-- On Windows, if a task is resumed whose innermost coroutine returns because the system has refused its connect,
-- its read or its datagram, and another coroutine awaits it, then `one_step` answers `kWait` though nothing has
-- been started, and the task is lost: it waits in every state that the scheduler reaches from there, and is not in
-- the queue, in no timer and not registered.
pub refused-IsLost :
    (operation : Operation) (body : Body) (a curr awaiting : ℕ) (outer : List ℕ) (r s : Reactor)
    (resume : ℕ → Reactor → Resumed × Reactor)
    → r.states a ≡ run
    → contains r.active a ≡ true
    → contains r.queue a ≡ false
    → has r.timers a ≡ false
    → contains r.interest a ≡ false
    → resume curr r ≡ (returned, record r { states = update r.states a (refused_state operation) })
    → let step = Task.one_step Reactor (λ u. u.states a) resume (curr ∷ awaiting ∷ outer) r in
      Reach body a step.1 s → (step.0 ≡ awaiting ∷ outer) × (step.2 ≡ wait) × IsLost a s
refused-IsLost operation body a curr awaiting outer r s resume runs act q h i e path =
    let after = record r { states = update r.states a (refused_state operation) } in
    let same =
      one_step_returned Reactor (λ u. u.states a) resume curr awaiting outer r after runs e
        (unfold update in ground (arith, refused_state_lem operation)) in
    let left : Reach body a after s = subst (λ x. Reach body a x s) (ap (λ x. x.1) same) path in
    (
      ap (λ x. x.0) same,
      ap (λ x. x.2) same,
      Reach-IsLost a left (refused-IsLost_now operation a r act q h i),
    )
