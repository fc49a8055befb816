-- ===== src/Lib.antt =====
-- A model of bc, a small C++ library of coroutines over epoll, with sockets, addresses, errors and
-- logging.
--
-- The parts of the program, and where each is modelled:
--
-- Utils: include/bc/utils. Error holds `errc`, the messages of its category, and `report`, the
-- call of `message` for a line of the log, which aborts where there is none; Expected the type
-- `expected<T, E>` of a value or an error that the network code returns; Overload the choice that
-- `overload` makes between callables.
-- Log: include/bc/log and src/log. Record holds the levels and `log::record`; Formatter the class
-- `formatter`: its constructor parses a format once (`scan`), `repr` prints it again, and `format`
-- makes the line for a record. Formatter/Grammar states the language of formats. Worker holds the
-- classes `worker`, `logger` and `backend`: a logger counts a record and hands it to the worker,
-- whose loop formats and writes what has come, and counts it off. One call of `round` is what the
-- loop does between two waits, and `flush` is modelled up to its wait; Worker/Loop is the thread,
-- with what other threads ask of it before a wait is over and during a drain, up to its end.
-- Wrappers holds the calls `debug` to `fatal` and the default logger; Destructor the race of the
-- destructor of a logger with the worker that counts its records off, as a step relation of the
-- two threads. A wait there ends with a notification: the spurious wake-ups that the C++ library
-- allows are left out.
-- Async: include/bc/async/scheduler.hpp and src/async/scheduler.cpp. Poller holds the class
-- `poller`, whose `focus_` remembers what epoll has been told; BitCeil the sizes of its vectors.
-- Scheduler holds the class `scheduler`: the nodes that wait for descriptors and for times,
-- `post_coro`, the handler of a descriptor's events, the expiry of times, and `run`. Task holds
-- the frames of coroutines with the pointer `prev` to who awaits them, and the class `task`, a
-- handle that moves (include/bc/async/task.hpp); Async/Results what promises keep of
-- `return_value`; Sleep the awaiter of `async_sleep`, which posts to the scheduler.
-- Network: include/bc/network/address.hpp, socket.hpp, server.hpp and client.hpp. Chars holds
-- `std::from_chars` and `std::views::split` as the parsers use them; Address the two parsers,
-- `address::from` and the printer, and Address/Names the names of IPv6 addresses, written out as
-- texts. Socket/SystemCalls holds what the sockets ask of the system; Socket the class `socket`,
-- its moves and its destructor, which also asks the scheduler to forget the descriptor; Awaiters
-- what is done before and after a coroutine waits for a socket. Socket/Reach is the step relation
-- of programs with any number of sockets. Server holds the server's loop and its clients; Echo the
-- session that main.cpp has it start for each client, over a connection as two streams of bytes,
-- and Echo/Course the reads and writes of such a session as a relation; Client the class `client`,
-- whose handler and whose wait for the connection are the parameters `start` and `woken`.
-- Echo/Scheduled is that session as a coroutine that the scheduler resumes; a fault of that
-- coroutine is a stage of it, which ends the program at the end of the handler's call.
-- Examples: examples. Sleep is the program examples/sleep.cxx, two coroutines over the scheduler
-- on a machine with a clock (`Machine`); Sessions the coroutines of async-server.cxx,
-- one-time-server.cxx and client.cxx that talk over a connection; Servers the rest of
-- async-server.cxx, which keeps its clients and prints what becomes of them; OneTime the rest of
-- one-time-server.cxx, which listens and accepts one client.
--
-- How the code is modelled. An object is a record and a method a function from the old state to
-- the new one, in `Result` where it may assert, throw, index past the end of a vector, follow a
-- dangling iterator or end the program (Prelude/Fallible). The kernel's epoll is the parameter
-- `Epoll`, with the laws of its manual page, and the calls on sockets are the parameter `Sys`;
-- what coroutines and proxies do is the parameter `Host`: when they are resumed, they change the
-- world and post to the scheduler. The library fmt, which prints numbers and times, is the
-- parameter `Fmt` or `Numerals`. The coroutines of a server's sessions are the parameters `start`
-- and `is_done` of the server. Machine integers keep their wrap-around (`coro_count_`, `htons`);
-- the machine is little-endian, as the code supposes. Loops that a coroutine may keep going take
-- fuel: `walk` needs as much as its proxies keep it, `connect_ready` as much as signals interrupt
-- it, the worker's `loop` a turn for each round, and `run` serves for ever in a program that
-- always posts again; Scheduler/Sleepers describes the programs whose coroutines sleep a bounded
-- number of times. What fuel is enough is said in the results.
--
-- What is not modelled: the locks of the log worker, each critical section being one step; the
-- compile-time conditions on templates. Logging from inside the scheduler, the sockets and the
-- parsers is left out, since it changes none of their state; of the lines that the server, the
-- sessions and the examples log, the call of `message` is kept, and the text is left out. The
-- order of equal times in the timer queue, which the C++ library leaves open, is that of
-- insertion.
pub mod Prelude
pub mod Utils
pub mod Log
pub mod Async
pub mod Network
pub mod Examples
