-- ===== src/Runtime/Ports/Timeouts.antt =====
-- epoll.cpp and iocp.cpp: the time for which a completion port blocks.
use cppio.Common.{ℕ, ◌+◌, ◌*◌, ◌/◌, ◌^◌, ◌≤◌, ◌<◌, ◌≡◌, arith, none, some, ◌-◌, ◌↔◌}
use cppio.Runtime.Ports.{one_millisecond, epoll_timeout, iocp_timeout}

-- A time below 2 ^ 32 - 1 milliseconds, 49 days, is given to the port of Windows in whole milliseconds, so it
-- comes back before the time has passed, and less than a millisecond before. Of these times epoll is given the
-- same for those below 2 ^ 31 milliseconds, 24 days, and for the others no limit, so that it blocks until there
-- is an event.
pub epoll_timeout_bound :
    (wait_time : ℕ)
    → wait_time < (2 ^ 32 - 1) * one_millisecond
    → (ms : ℕ) × (iocp_timeout wait_time ≡ some ms)
      × (ms * one_millisecond ≤ wait_time)
      × (wait_time < (ms + 1) * one_millisecond)
      × ((epoll_timeout wait_time ≡ some ms) ↔ (wait_time < 2 ^ 31 * one_millisecond))
      × ((epoll_timeout wait_time ≡ none) ↔ (2 ^ 31 * one_millisecond ≤ wait_time))
unfolding epoll_timeout iocp_timeout
epoll_timeout_bound wait_time h = (
  wait_time / one_millisecond,
  ground (arith, h),
  omega arith,
  omega arith,
  ((λ e. ground (arith, h, e)), (λ k. ground (arith, h, k))),
  ((λ e. ground (arith, h, e)), (λ k. ground (arith, h, k))),
)
