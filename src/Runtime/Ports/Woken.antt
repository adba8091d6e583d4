-- ===== src/Runtime/Ports/Woken.antt =====
-- epoll.cpp: the events of a round, in the reactor and in the operations.
use cppio.Common.{
  ℕ, ◌≡◌, refl, ap, ◌∙◌, Bool, not, ◌||◌, List, [], ◌∷◌, map, ◌==◌, if◌then◌else◌, arith,
}
use cppio.Runtime.Sets.{update}
use cppio.Runtime.Reactor
use cppio.Runtime.Ports.{Overlapped, Port, Event, report, epoll_run}

-- The tasks of the events, in order.
abbrev pub tasks : List Event → (ℕ → Overlapped) → List ℕ
tasks events operations = map (λ e. (operations e.operation).task) events

-- Whether an operation has succeeded behind the events: its last event tells.
abbrev pub has_succeeded : ℕ → List Event → Bool → Bool
has_succeeded operation [] before = before
has_succeeded operation (e ∷ events) before =
    has_succeeded operation events
      (if operation == e.operation then not (e.events.failed || e.events.hung_up) else before)

report-task :
    (e : Event) (port : Port) (operation : ℕ)
    → ((report e port).operations operation).task ≡ (port.operations operation).task
unfolding report update
report-task e port operation = ground arith

reported :
    (e : Event) (port : Port) (operation : ℕ)
    → (report e port).operations operation ≡ record (port.operations operation) {
      success =
          if operation == e.operation
          then not (e.events.failed || e.events.hung_up)
          else (port.operations operation).success;
    }
unfolding report update
reported e port operation = ground arith

tasks-report :
    (e : Event) (events : List Event) (port : Port)
    → tasks events (report e port).operations ≡ tasks events port.operations
tasks-report e [] port = refl
tasks-report e (f ∷ events) port = cc (report-task e port f.operation, tasks-report e events port)

reactor-epoll_run :
    (events : List Event) (port : Port)
    → (epoll_run events port).reactor
      ≡ Reactor.epoll_run (tasks events port.operations) port.reactor
unfolding epoll_run Reactor.epoll_run report
reactor-epoll_run [] port = refl
reactor-epoll_run (e ∷ events) port =
    reactor-epoll_run events (report e port)
    ∙ ap (λ ts. Reactor.epoll_run ts (report e port).reactor) (tasks-report e events port)

operations-epoll_run :
    (events : List Event) (port : Port) (operation : ℕ)
    → (epoll_run events port).operations operation ≡ record (port.operations operation) {
      success = has_succeeded operation events (port.operations operation).success;
    }
unfolding epoll_run
operations-epoll_run [] port operation = refl
operations-epoll_run (e ∷ events) port operation =
    operations-epoll_run events (report e port) operation
    ∙ ap {A = Overlapped} (λ o. record o { success = has_succeeded operation events o.success })
        (reported e port operation)

-- The events of one round of epoll do to the reactor what its model does with the tasks of their operations, in
-- order: each is woken and is registered no longer. An operation of which there is an event has succeeded if its
-- last event is no error and no hang-up; every other is as it was.
epoll_run_lem :
    (events : List Event) (port : Port)
    → ((epoll_run events port).reactor
        ≡ Reactor.epoll_run (tasks events port.operations) port.reactor)
      × ((operation : ℕ)
          → (epoll_run events port).operations operation ≡ record (port.operations operation) {
            success = has_succeeded operation events (port.operations operation).success;
          })
epoll_run_lem events port = (reactor-epoll_run events port, operations-epoll_run events port)
