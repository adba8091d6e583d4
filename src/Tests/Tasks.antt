-- ===== src/Tests/Tasks.antt =====
-- Runs of basic_task.cpp, of the pointers of a thread and of the interest list of epoll.
use mathlib.Core.Option
use cppio.Common.{
  not, ℕ, ◌≡◌, ◌≢◌, refl, arith, true, false, [], ◌∷◌, ◌++◌, Bool, Option, none, some,
  if◌then◌else◌, ◌==◌, subst, sym,
}
use cppio.Runtime.Sets.{contains, update}
use cppio.Runtime.Timer
use cppio.Runtime.Reactor.{Reactor, run, Round, run_rounds}
use cppio.Runtime.Reactor.Current.{Thread, LocalBody, run_current, stop}
use cppio.Runtime.Reactor.Current.Runs.{resolved, run_current-run_rounds, run_current-stop}
use cppio.Runtime.Ports
use cppio.Runtime.Ports.Registered
use cppio.Runtime.Ports.{Events, for_read, for_write}
use cppio.Runtime.Ports.Registered.{
  Entry, EpollCtl, register_read, register_write, IsSilent, register_read-register_write,
  register_read-IsSilent,
}
use cppio.Runtime.Task
use cppio.Runtime.Task.{Resumed, called, returned}
use cppio.Runtime.Task.Frames.{Frames, step_frames}
use cppio.Runtime.Task.Frames.Linked.{Represents, IsNew}
use cppio.Runtime.Task.Frames.Steps.{Agrees, CallsNew, step_frames-Agrees}

-- The pointers of a thread

abbrev busy : Reactor
busy = record {
  queue = 1 ∷ [];
  active = 1 ∷ [];
  timers = [];
  interest = [];
  states = (λ t. run);
  running = true;
}

-- A task that returns.
abbrev local_body : LocalBody
local_body thread t r = ([], true)

abbrev outside_thread : Thread
outside_thread = record { reactor = none; task = none }

abbrev one_round : Round
one_round = record { now = 5; events = [] }

run_current-run_rounds_example :
    run_current 0 3 local_body (one_round ∷ []) (outside_thread, busy)
    ≡ Option.map
        (λ after. (outside_thread, after))
        (run_rounds 3 (resolved 0 outside_thread local_body) (one_round ∷ []) busy)
run_current-run_rounds_example =
    run_current-run_rounds 0 3 local_body (one_round ∷ []) outside_thread busy refl

run_current-stop_example :
    (after : Reactor) × (run_current 0 3 local_body (one_round ∷ []) (outside_thread, stop busy)
      ≡ some (record outside_thread { reactor = some 0 }, after))
    × (after.active ≡ busy.active)
    × (after.queue ≡ busy.queue ++ ((Timer.get_delay 5 busy.timers).woken ++ []))
    × (after.running ≡ false)
run_current-stop_example =
    run_current-stop 0 3 1 local_body [] one_round [] outside_thread busy refl

-- The interest list

abbrev Interest : Type 0
Interest = ℕ → Option Entry

abbrev is_there : Option Entry → Bool
is_there none = false
is_there (some e) = true

-- What a call leaves that enters the descriptor on a condition.
abbrev entered : Bool → Interest → ℕ → Entry → Bool × Interest
entered b k fd e = if b then (true, update k fd (some e)) else (false, k)

entered_done :
    (b : Bool) (k : Interest) (fd : ℕ) (e : Entry) (g : ℕ)
    → (entered b k fd e).0 ≡ true
    → (entered b k fd e).1 g ≡ (if g == fd then some e else k g)
unfolding update
entered_done true k fd e g h = refl
entered_done false k fd e g h = absurd (cc h)

entered_failed :
    (b : Bool) (k : Interest) (fd : ℕ) (e : Entry) (g : ℕ)
    → (entered b k fd e).0 ≡ false
    → (entered b k fd e).1 g ≡ k g
entered_failed true k fd e g h = absurd (cc h)
entered_failed false k fd e g h = refl

-- A list without a limit.
abbrev unlimited : EpollCtl Interest
unlimited = record {
  entry = (λ k fd. k fd);
  change = (λ k fd e. entered (is_there (k fd)) k fd e);
  insert = (λ k fd e. entered (not (is_there (k fd))) k fd e);
  change_missing = (λ k fd e h. rw h refl);
  change_done = (λ k fd e g h. entered_done (is_there (k fd)) k fd e g h);
  change_failed = (λ k fd e g h. entered_failed (is_there (k fd)) k fd e g h);
  insert_present = (λ k fd e x h. rw h refl);
  insert_done = (λ k fd e g h. entered_done (not (is_there (k fd))) k fd e g h);
  insert_failed = (λ k fd e g h. entered_failed (not (is_there (k fd))) k fd e g h);
}

abbrev no_interest : Interest
no_interest fd = none

-- The operations 1 and 2, on the descriptors 7 and 8.
abbrev reading : Interest
reading = (register_read unlimited no_interest 7 1).1

register_read-register_write_example :
    let after = (register_write unlimited reading 8 2).1 in
    (after 8 ≡ some (for_write, 2))
    × (after 7 ≡ (if 7 == 8 then some (for_write, 2) else some (for_read, 1)))
register_read-register_write_example =
    register_read-register_write unlimited no_interest 7 8 1 2 first second
  where
    first : (register_read unlimited no_interest 7 1).0 ≡ true
    first = unfold register_read Registered.enter Ports.add_for_read in refl

    second : (register_write unlimited reading 8 2).0 ≢ some false
    second =
        λ e. unfold register_write register_read Registered.enter Ports.add_for_write update in cc e

register_read-IsSilent_example :
    let after = (register_read unlimited reading 7 2).1 in
    (after 7 ≡ some (for_read, 2)) × IsSilent unlimited after 1
register_read-IsSilent_example =
    register_read-IsSilent unlimited no_interest 7 1 2 (λ e. omega (arith, e))
      (λ g mask e. absurd (cc e)) first second
  where
    first : (register_read unlimited no_interest 7 1).0 ≡ true
    first = unfold register_read Registered.enter Ports.add_for_read in refl

    second : (register_read unlimited reading 7 2).0 ≡ true
    second = unfold register_read Registered.enter Ports.add_for_read update in refl

-- The pointers of the promises: coroutine 2 is awaited by coroutine 1, which is the task's own.

abbrev linked : Frames
linked = record {
  inner = (λ c. if c == 1 then some 2 else none);
  outer = (λ c. if c == 2 then some 1 else none);
  finished = (λ c. false);
}

-- Coroutine 2 returns, and coroutine 1 awaits the task of coroutine 3.
abbrev awaits_third : ℕ → ℕ → Resumed × ℕ
awaits_third c w = if c == 1 then (called 3, w) else (returned, w)

linked-Represents : Represents linked (2 ∷ 1 ∷ [])
unfolding contains
linked-Represents = ((refl, (refl, tt)), (refl, refl, refl, (refl, refl)), refl)

third-IsNew : CallsNew ℕ (λ w. run) awaits_third linked (2 ∷ 1 ∷ [])
unfolding contains
third-IsNew c i w after h =
    let same : i ≡ 3 = ground (arith, h) in
    subst (λ j. IsNew j (2 ∷ 1 ∷ []) linked) (sym same) (refl, refl, refl)

step_frames-Agrees_example :
    Agrees ℕ
      (λ w. run)
      awaits_third
      (step_frames ℕ (λ w. run) awaits_third 2 linked 1 0)
      (Task.one_step ℕ (λ w. run) awaits_third (2 ∷ 1 ∷ []) 0)
step_frames-Agrees_example =
    step_frames-Agrees ℕ (λ w. run) awaits_third 2 (1 ∷ []) linked 0 linked-Represents third-IsNew
