-- ===== src/Runtime/Task/Promise.antt =====
-- cppio/task.hpp and future.{hpp,inl}: the promise in which a coroutine leaves its value, and the futures that
-- `get_future` gives for its task. A future is a copyable handle of the task.
use cppio.Common.{Bool, true, false, Option, none, some, if◌then◌else◌}

-- `m_value`, and the shared state of `m_notifier`: whether it is set, and whether its future has been taken.
pub record Promise {ℓ} (U : Type ℓ) : Type ℓ where
  pub value : Option U
  pub notified : Bool
  pub retrieved : Bool

abbrev pub initial {ℓ} : {U : Type ℓ} → Promise U
initial = record { value = none; notified = false; retrieved = false }

-- `return_value`; the exception of a second `set_value` is caught.
unfoldable pub return_value {ℓ} : {U : Type ℓ} → U → Promise U → Promise U
return_value t p = record p { value = some t; notified = true }

-- What `get` does: it returns, blocks the thread, or ends the process, since it is marked `noexcept`;
-- `undefined` is the reading of an empty optional.
pub data Got {ℓ} (U : Type ℓ) : Type ℓ where
  returns : (u : U) → Got U
  blocks terminates undefined : Got U

-- `final_task_promise::value`: `move` takes the value out of its place, and gives what is left there.
unfoldable pub take_value {ℓ} : {U : Type ℓ} → (U → U) → Promise U → Got U × Promise U
take_value left p = elim p.value [
  | none ↦ (undefined, p)
  | some u ↦ (returns u, record p { value = some (left u) })
]

-- `task::wait`, which takes the future of `m_notifier`: that throws where it has been taken before.
unfoldable pub wait {ℓ} : {U : Type ℓ} → Promise U → Got {0} Unit × Promise U
wait p =
    let taken = record p { retrieved = true } in
    if p.retrieved
    then (terminates, p)
    else if p.notified
    then (returns tt, taken)
    else (blocks, taken)

-- What `get` does behind `wait`: it reads the value, and has the task no more.
unfoldable pub get_behind {ℓ} :
    {U : Type ℓ} → (U → U) → Got {0} Unit × Promise U → Got U × Bool × Promise U
get_behind left (returns u, p) = let (result, after) = take_value left p in (result, false, after)
get_behind left (blocks, p) = (blocks, true, p)
get_behind left (terminates, p) = (terminates, true, p)
get_behind left (undefined, p) = (undefined, true, p)

-- `future::get` on a future that has the task or is spent; `empty` is `{}`.
unfoldable pub get {ℓ} : {U : Type ℓ} → U → (U → U) → Bool → Promise U → Got U × Bool × Promise U
get empty left false p = (returns empty, false, p)
get empty left true p = get_behind left (wait p)

-- `return_void`, for a task without a value: the exception of a second `set_value`, here `none`, is not caught there,
-- and `unhandled_exception` ends the process.
unfoldable pub return_void : Promise {0} Unit → Option {0} (Promise {0} Unit)
return_void p = if p.notified then none else some (record p { value = some tt; notified = true })
