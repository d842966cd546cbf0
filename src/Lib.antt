-- ===== src/Lib.antt =====
-- Verification of the Reactor server, an epoll based TCP server in C++.
--
-- The program. A `TcpServer` has a main loop, which accepts clients, and sub loops, each run by a
-- thread of a `ThreadPool`. Every client is a `Connection`, with two `Buffer`s and a `Channel` that
-- tells the loop's `Epoll` what to watch its descriptor for. The loop calls the channel's callback;
-- input goes through the connection and the server to the user's callback, output through
-- `Connection::send`, which hands a task to the loop's queue when another thread calls it.
-- `EchoServer` is a user that answers each message, on the loop's thread or on a worker of a pool of
-- its own.
--
-- The parts.
--   * Base: names of the libraries, Boolean tests, lists, association lists for `std::map` with int
--     keys, integers, and `Outcome`, a result or the way in which the program fails: it exits, it
--     throws, or it does what the language gives no meaning.
--   * Buffer (Buffer.h, Buffer.cpp): the record `Buffer`, one function per method. Framing, Wire and
--     Lengths: messages with a header of four bytes.
--   * Channel (Channel.h, Channel.cpp): State has the fields and `handleevent`, Watch the methods
--     that change the events, Sync relates a channel to the kernel's interest list, Added is about a
--     new one.
--   * Epoll (Epoll.h, Epoll.cpp): Kernel is what the program asks of the kernel, a parameter, with
--     the promises of the manual pages as the record `Laws`. Defs has the methods, Table a kernel that
--     keeps the promises.
--   * ThreadPool (ThreadPool.h, ThreadPool.cpp): System is the step relation of the pool's threads,
--     one step per access to what they share. Invariant, Safety and Accounting are about what it
--     reaches, Roused and Filling about the start of the tasks, Shutdown, Ending and Full about what
--     `Stop` brings about.
--   * InetAddress, Socket and Acceptor (the files of these names): Socket/Net is what the program
--     asks of the kernel about sockets, a parameter with the promises as `NetLaws`, which Socket/Table
--     keeps; Socket/Defs and Acceptor/Defs have the methods, Socket/Setup and Acceptor/Listen are
--     about the setup of the listening socket.
--   * Timestamp (Timestamp.h, Timestamp.cpp): Printf has the conversions of `snprintf`, Order is
--     about the texts.
--   * Client (client.cpp): the program; Exchange is about what it makes of the replies.
--   * World: the connections and loops, each in a heap with numbers for pointers, and the state that
--     the callbacks of the server's user work on.
--   * EventLoop (EventLoop.h, EventLoop.cpp): Defs and Run have the methods. Created is about the
--     constructor, Tasks is about the task queue, Dispatch about a round with one event, Queue, Flow
--     and Delivery about the queue and the output together, Timer about the timer.
--   * Connection (Connection.h, Connection.cpp): Defs has the methods. Live says when a connection
--     is watched and what its methods change; Output, Stream, Close, Text and Input follow the bytes
--     out and in, and Early is about events before the callbacks are set.
--   * TcpServer (TcpServer.h, TcpServer.cpp): Defs has the methods, Create the constructor. Ready is
--     about a new server, Running about the start of its sub loops by the IO pool, Maps and Accept are
--     about the two maps that hold a connection, Listen about an event of the listening socket, Stop
--     about the end.
--   * EchoServer (EchoServer.h, EchoServer.cpp): Defs has the callbacks, Main the rest and the
--     program of tcpepoll.cpp with its signal handler. Reply and Way follow a message, Overread one
--     with a NUL byte inside; Workers has the runs of the workers, and Workers/Order and
--     Workers/Replies are about the order of the replies. Reach is about a server with any number of
--     clients: Reach/Steps has its step relation, Reach/Returns is about rounds that return, with
--     Reach/Handles about one event; Reach/Serving and Reach/Serves follow a new client to its reply,
--     Reach/Wakes is about the tasks that wait in a loop, Reach/Ticks about its timer, Reach/Replies
--     about what workers leave to it, the others are about what each step keeps.
--   * Programs: Clock is the main function of timestamp.cpp, Trial that of test_ThreadPool.cpp.
--   * Samples and the modules called Tests: small states, and the theorems at them.
--
-- What the model assumes. The machine is little-endian, with an `int` of 32 and a `size_t` of 64
-- bits; bytes are numbers below 256; a mask is tested and changed one bit at a time, by arithmetic.
-- Reads and writes of atomic flags are sequentially consistent. The descriptor of an accepted socket
-- is read before the socket is moved. A callback that was not set throws when it is called. Output
-- to the console is left out, but for what client.cpp and timestamp.cpp print, and memory never runs
-- out. The answers of `read`, `send`, `epoll_wait` and the clock are arguments, and so is
-- `localtime`; a `send` of the server to a peer that reads no more raises SIGPIPE, which ends the
-- process, and of the client's `send` it is assumed that it takes all. The creation of an eventfd
-- and of a timerfd gives a descriptor; `epoll_ctl` refuses the descriptor -1. A member that a
-- constructor leaves unset has some value. Loop 0 is the main loop, loop 1 + i the sub loop i.
-- Objects are never freed. In the runs of the server, `accept4` gives a descriptor that no live
-- connection of the loop has, and `epoll_wait` reports descriptors that the epoll watches, each
-- once; the steps of threads do not overlap there: a round of a loop is one step, and so is a
-- worker's run of a task, with any other worker's runs between its taking and its run.
--
-- Fuel. `drain`, the loop over the messages of an input buffer, takes fuel, since it need not end. A
-- connection's input buffer has no headers, so that two rounds are enough, if the callback leaves
-- the input alone. A script of events for `run` that ends leaves the loop waiting, which counts as
-- out of fuel.
--
-- Not modelled: the deletion of objects, what the tasks of test_ThreadPool.cpp print, and the copies
-- of the classes Timestamp and ThreadPool in timestamp.cpp and test_ThreadPool.cpp.
pub mod Base
pub mod Buffer
pub mod Channel
pub mod Epoll
pub mod ThreadPool
pub mod InetAddress
pub mod Socket
pub mod Acceptor
pub mod Timestamp
pub mod Client
pub mod World
pub mod Samples
pub mod EventLoop
pub mod Connection
pub mod TcpServer
pub mod EchoServer
pub mod Programs
