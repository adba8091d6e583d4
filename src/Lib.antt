-- ===== src/Lib.antt =====
-- cppio: a runtime for asynchronous input and output in C++20, with coroutines as tasks.
--
-- The program and how its parts interact. A reactor (src/cppio/impl/abstract_reactor.*, basic_reactor.*)
-- keeps a queue of tasks that are ready, a set of the tasks that have not returned, a pool of timers
-- (src/cppio/impl/timer_pool.*) and a completion port (src/cppio/impl/posix/epoll.*, impl/win32/iocp.*), which
-- its workers share. A task (src/cppio/basic_task.*, task.hpp) is a chain of coroutines, of which the innermost is
-- resumed until it suspends; it suspends to sleep (src/cppio/sleep.*), which starts a timer, or to wait for a
-- descriptor, which registers it with the completion port. A timer that is due and an event of the port wake the
-- task: they put it back into the queue. A task leaves its value in a promise, which a future reads
-- (src/cppio/future.*). src/cppio/cppio.cpp makes the reactor and runs it. The sockets
-- (src/cppio/network/base_socket.*, tcp_socket.*, tcp_listener.*, udp_socket.*, posix/ and win32/) are written as
-- such coroutines; they take and give endpoints (src/cppio/network/endpoint.*, ip.*) and the codes of
-- src/cppio/error_code.hpp. The HTTP types (src/cppio/network/http/) turn texts into requests and responses and
-- back; they do not use the reactor.
--
-- The files.
-- - Common: the parts of the C++ standard library that the program uses, over the native numbers: texts with
--   npos and the arithmetic of a 64-bit size_t (Text, Searches), decimal numbers (Decimal), the order of texts
--   (Order), results (Results), lists and Boolean tests (Lists, Tests).
-- - Http/Method, Http/Encoding, Http/Headers, Http/Request, Http/Response: the files of the same names in
--   src/cppio/network/http. Http/Message holds what request::create and response::create share. A multimap is
--   the list of its entries in order, and Headers/Abstract its view as a function from keys to values,
--   Headers/Format a description of its text with no positions; the
--   unordered_map of the parameters is a list in the order of iteration.
-- - Network/Ip and Network/Endpoint: ip.cpp and endpoint.cpp; a sockaddr_storage is a record of the fields that
--   the program uses, in bytes. Network/Endpoint also has the endpoints that base_socket.cpp reads.
-- - Network/ErrorCategory: the category of error_code.hpp, on an int; the codes are in Common/Results.
-- - Network/Socket: base_socket.cpp, tcp_socket.cpp and the files of network/posix. The state is the list of the
--   open descriptors; the answers of the system calls are arguments, in the order of the calls. Waits has what
--   the operations do to the state that the workers share when they wait. Exactly has read_exactly
--   with the buffer that it fills. Loops gives the reads and writes one form, and Scheduled makes each the coroutine of a task of the reactor, which the scheduler resumes and epoll
--   wakes, among steps of other tasks; Served has the invariant, Outcomes what each returns, Resumptions and Finishes the way to the end, and
--   Reads joins both with the loops over answers.
-- - Network/Windows: the files of network/win32, with the list of the open handles, and with the state in which
--   each operation leaves its task. Stuck joins them with the chain of coroutines and with the reactor,
--   and Exactly with read_exactly.
-- - Runtime/Timer and Runtime/Reactor: timer_pool.cpp, abstract_reactor.cpp, basic_reactor.inl, basic_task.cpp,
--   sleep.cpp and epoll.cpp, with one worker. A Reactor is the record of the fields of abstract_reactor, with the
--   registrations of the completion port and the state of each task. Tracking states the scheduler as a step
--   relation, in which the outside chooses what happens next; Frame says what the steps of others leave of a task,
--   and Lost follows a task that no step wakes. Current has the thread-local pointers and the destructor.
-- - Runtime/Workers: the same with several workers, as a step relation in which each access to what they share
--   is a step; a worker is the place at which it stands. Found, Kept and Stranded have the invariant, Races two
--   orders of steps that go wrong, and Alone and Rounds join the model with that of one worker.
-- - Runtime/Task: the chain of coroutines of a task, in basic_task.cpp and task.hpp, the handle of a coroutine
--   (Handle) and the promise and futures of task.hpp and future.inl (Promise, Futures). Bodies makes a chain of
--   coroutines a body of Runtime/Reactor. Frames has the pointers of the promises that stand for the chain, and the
--   loops of one_step that follow them.
-- - Runtime/Ports: epoll.cpp and iocp.cpp with the operations that are under way, and the times for which they
--   block. Registered joins epoll.cpp with the interest list of the kernel, whose epoll_ctl is a record of its calls
--   and of what is documented of them. Runtime/Startup: cppio.cpp and cppio.hpp. Runtime/Sets stands for the standard containers.
-- - Tests: runs of the definitions, and the theorems at concrete inputs.
--
-- Errors and loops. A function marked noexcept gives an Outcome: a value, an error code, or the end of the
-- process where an exception would leave it. A loop that may run on has fuel: header_map::create and
-- request::create have one round for each byte of the text, which is enough, since each round takes a byte at
-- least; the texts are shorter than 2 ^ 63 bytes where a theorem says so. std::to_string has twenty digits, which
-- is enough for 64 bits. The loops of ip::v6 have eight rounds, one for each word. process_tasks has the fuel
-- that it is given, since a task may keep it from ending. The loops of the sockets follow the list of answers.
--
-- Not modelled. What a coroutine of the program's user does between two suspensions, which is a parameter of the
-- reactor; the threads themselves, whose blocking is an answer, and a stop of the reactor in the middle of a run;
-- inet_pton, which is a parameter of the definitions that call it; the system calls, whose answers are arguments, but for epoll_ctl; platform.hpp and the files of
-- defines, which hold no logic, and resolver.cpp, which is empty; the program's tests.
pub mod Common
pub mod Http
pub mod Network
pub mod Runtime
pub mod Tests
