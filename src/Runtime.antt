-- ===== src/Runtime.antt =====
-- cppio/: the scheduler. Timer models impl/timer_pool, Reactor models basic_task's states,
-- impl/abstract_reactor, impl/basic_reactor, sleep and impl/posix/epoll, and Task models the step of a
-- chain of coroutines in basic_task.cpp. A task is the number that names it.
pub mod Sets
pub mod Timer
pub mod Workers
pub mod Reactor
pub mod Ports
pub mod Startup
pub mod Task
use cppio.Common.{ℕ}
