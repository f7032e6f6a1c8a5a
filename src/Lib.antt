-- ===== src/Lib.antt =====
-- ds-service: a server that holds the shared state of distributed Python programs. Its core keeps a
-- task queue with dependencies between tasks, a key-value store, journals, time series, named mutexes
-- and monotonic counters. A transport carries requests from clients to the operations of the core and
-- their results back. This library models the core and proves what makes it correct.
--
-- The files, and the code that they model (paths from the repository's root):
--   Error, TaskState, Messages: the vocabulary of the core's operations, cpp/common/include/ds-service/
--     error.hpp, task-state.hpp and messages.hpp. std::expected is Result, one record per message.
--   Double: the comparisons of the type double, on its bits, NaN and the zeros included.
--   ThirdParty: what the core uses of code that is not in the repository, as an interface: the hash map
--     of phmap (find, operator[], assignment, iteration in an unspecified order that meets every key
--     once), RE2 (ok, error, PartialMatch) and fmt::format. Every component takes an instance of it.
--   Map, Counters, JournalMap, TimeSeries, Mutexes: the structures of cpp/server/core/data-structures.hpp with the
--     operations of map.cpp, counters.cpp, journal-map.cpp, time-series.cpp and mutexes.cpp beside it.
--     SearchKey is the search over the keys that each of them serves. TimeSeries.Chrono is what
--     time-series.cpp uses of the library's calendar, and Calendar that calendar: Civil the dates, Fields
--     the numeric fields of a format, Calendar itself std::chrono::parse and std::format for the
--     formats of the code.
--   TaskManager: cpp/server/core/task-manager.cpp. State has the table of tasks, one list per column, and
--     enqueue; Queue the priority queue with its order; Propagate the walk that ends the descendants of a
--     failed or canceled task; Add, Cancel, Priority, Get and Done one operation each; Reads the
--     operations that change nothing.
--   SystemState: cpp/server/core/system-state.hpp, and the 28 operations on plain messages as
--     cpp/client/include/ds-service/client-transport.hpp lists them (Call, Answer, perform).
--   Grpc: cpp/grpc. Proto has the messages and Rpc the service of ds-service.proto, Codec and its children
--     the conversions of codec.cpp and codec.hpp, Server the methods of
--     server/grpc-server-transport.cpp (serve), and Client the methods of
--     client/grpc-client-transport.cpp (request_of, decode_response, remote). Client.Calls has the life of
--     a call there: begin_call, the callback, wait with should_cancel, end_call and close.
--   Client, Connect: cpp/client/client.cpp and connect.cpp: the methods of Client on a transport, and the choice
--     of the transport by the scheme of an address.
--   MutexAcquire: Client::mutex_acquire of cpp/client/client.cpp, the loop over mutex_try_acquire of the
--     client's transport. Its rounds are an input, with the clock, the sleep with its jitter and what
--     becomes of the server meanwhile.
--   Bindings: cpp/python/bindings.cpp: the methods of the Python class Client (called, released), the poll of signals
--     (python_signal_pending), the translator of ClientError (translate) and the three __eq__.
--   ServerMain: cpp/server/main.cpp: the start of the transports (startup), and main and the shutdown thread
--     from there to the exit (happen).
--   Base: lists as vectors (reads out of range give a default, writes out of range do nothing), Boolean
--     tests, integers.
--
-- The proofs stand in child modules of what they are about. TaskManager.Graph has the invariant of the
-- dependency graph and TaskManager.Keeps that every operation keeps it. TaskManager.Dispatch has the
-- invariant of the queues, its children that every operation keeps it, and Dispatch.Get what task_get
-- answers. TaskManager.Add.Verdict and TaskManager.Done.Releases say what task_add and task_done do to the
-- states, as an observer of the states and the edges sees it. TaskManager.Cancel.Verdict and
-- TaskManager.Done.Failure say what an ending without success does to every row, and
-- TaskManager.Graph.Origins what terminal_origin tells of it. TaskManager.Steps makes the task manager a
-- state machine, with its invariants over any sequence of operations. Tests has a small instance of the
-- interfaces, and each theorem at a concrete input.
--
-- How the code is modelled. Each structure is guarded by one mutex, which each operation holds from its
-- first access to its last: an operation is one function from a state to a result and the next state, and
-- the calls of concurrent clients are a sequence of such steps. A uint64_t wraps at 2 ^ 64, and so do
-- size_t counts that the code decrements. std::priority_queue is a list that a push keeps in order: the
-- code reads the greatest entry only, and for entries of one priority the greater seq comes later. The
-- walk of propagate_to_children loops while its stack is not empty; the model gives it as many rounds as
-- the row has children plus the edges of the whole table, and a theorem says that its stack is empty
-- then. All other loops recur on the list they run over.
--
-- A call of a client is modelled twice. In Grpc.Client it is one that gRPC completes: its request reaches the
-- server, which runs the operation, and the response or the status comes back. In Grpc.Client.Calls it is a
-- state machine, whose events are what one thread does between two points where it waits or takes a lock,
-- and what gRPC does: any order of them is a sequence of steps. The bytes on the wire, the deadline of a
-- call and the moment at which it completes are gRPC's. The threads of ServerMain are modelled in the same
-- way; sigwait, the bind of a port and the completion of a shutdown are events or inputs there.
--
-- The calendar is the one that the C++ standard describes. A time_point is 64 bits of nanoseconds. The
-- count of a date that does not fit them is an overflow, which C++ leaves undefined; the model wraps, and
-- the theorems on the calendar are about times that fit. Where the standard leaves the reading of a field
-- open, Calendar chooses: a fraction needs a digit, the sign of an offset can be left out, and no second
-- is a leap second.
--
-- Not modelled: the start, the wait and the shutdown of the gRPC server and the arguments of its channel, which are
-- calls of gRPC; the Python package, which wraps the bindings; the parsing of the command line; the texts of
-- __repr__ and the registration of names in the bindings; the build. Logging and std::bad_alloc are left
-- out.
pub mod Base
pub mod ThirdParty
pub mod Error
pub mod TaskState
pub mod Double
pub mod Messages
pub mod SearchKey
pub mod Map
pub mod Bindings
pub mod Calendar
pub mod Client
pub mod Connect
pub mod Counters
pub mod JournalMap
pub mod TimeSeries
pub mod Mutexes
pub mod TaskManager
pub mod MutexAcquire
pub mod ServerMain
pub mod SystemState
pub mod Grpc
pub mod Tests
