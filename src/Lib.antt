-- ===== src/Lib.antt =====
-- comm_system: a library for passing messages between processes, over TCP and over Unix-domain
-- sockets. A message is a header of 24 bytes and some data. A client connects, sends messages and
-- waits for responses (comm_client.c, comm_tcp_client.c, comm_unix_client.c). A server
-- (comm_server.c) has one thread that accepts connections and queues them (comm_work_queue.c), and
-- workers that take turns at the queue, read messages and hand them to a callback, which answers
-- through the response functions. Everything logs through log_functions.c.
--
-- System, Kernel: the C library and the kernel are parameters (the record `Kernel`), and what POSIX
--   documents of them are the laws of System/Laws.antt, gathered for a socket in Kernel/Streams.antt.
-- Message: the structures of comm_i.h, and the bytes of a header on a 64-bit little-endian machine.
-- Transfer: the loops around write, send, read and recv, with the source's local variables. Children:
--   Write, Ending and Total (what a write loop puts out, and that it ends), Read and Lasting (what a
--   read loop takes in).
-- Framing: the bodies of the send functions and of the wait functions, which the source repeats for
--   each transport; the Unix client has no functions for the header or the data alone. Children:
--   Sending, Receiving, Delivery.
-- TcpClient, UnixClient, Response: the functions of comm_tcp_client.c and comm_unix_client.c, and the
--   response functions of comm_server.c.
-- Client: comm_client.c, with calls through the function pointers of a handle. Children: Calls,
--   Lifecycle.
-- Queue: comm_work_queue.c over an explicit heap. Children: Segments, Fifo, Get, and for
--   the interleaved steps of an acceptor and a worker Race, Chains, Linear.
-- Turn: comm_get_worker_index of comm_server.c. Child: Robin.
-- Worker: comm_worker_run of comm_server.c. Children: Reading, Handles, Events, Taking,
--   Requests, Failing, Dealing, Rounds.
-- Accept: the loop of comm_serv_thread that takes connections in, and comm_make_socket_non_blocking.
--   Child: Backlog.
-- Listen: comm_create_and_bind of comm_server.c. Child: Descriptors.
-- Start: comm_server_init of comm_server.c. Child: Threads.
-- Serve: comm_serv_thread of comm_server.c. Children: Waking, Draining.
-- Log: the log levels of log_functions.c. Children: Levels, Names, Environment.
-- Families: the error families of log_functions.c, and the system's errors of log_functions.h.
--   Children: Tables, Register, Lookup.
-- Format: log_vsnprintf of log_functions.c. Format.antt is the scanner, which finds the end and the
--   type of a conversion, Format/Arguments.antt the arguments, Format/Output.antt the rest. Children of
--   the proofs: Moves (the scanner goes on), Directives (the grammar of a directive), Scanning and
--   Pieces (the scanner reads it), Letters and Standard (the arguments that the C standard asks for),
--   Printing and Equivalence.
-- Destination: where each component logs to, SetComponentLogFile and SetDefaultLogging of
--   log_functions.c. Child: Default.
-- Replay, Examples: a concrete kernel that meets the laws, and the theorems at concrete inputs.
--
-- Numbers are natural numbers, and a `ssize_t` is an integer; a `uint64_t` that does not fit becomes
-- negative, as in C. The sums `count` and `ret` of a transfer have no bound here, while the source's
-- `ret` is a `ssize_t`: they stay below 2 ^ 63 because a frame is 24 bytes and the bytes of one object,
-- and no object of C is that long. Listen, Start, Accept, Serve, Worker, Families, Format and
-- Destination have parameters of their own for the further calls that they make. Loops run on fuel. The fuel that is
-- enough for a loop over `n` bytes is more than `n` and the number of calls that may come back with
-- nothing done (0 bytes, EAGAIN, EINTR), which the laws bound by `patience`; for the queue it is more
-- than the number of entries, for the accept loop more than the connections that wait, and for
-- log_vsnprintf more than the number of directives. The endless loops of the threads run for so many
-- rounds. `fault` stands for what C leaves undefined: an access outside an object, an argument read with
-- another type, and a call of a pointer that holds no function. Log messages, `usleep` and the freeing
-- of blocks that nothing reads are left out. The functions of Queue.antt run without interference; in
-- Queue/Race.antt the acceptor of a server and the worker that holds the lock take their steps in any
-- order; in Worker/Dealing.antt a worker passes the head of its round in one step, while in the source,
-- between the lock of the turn and the lock of the queue, other workers may overtake it. The callbacks are
-- functions of the library's user.
--
-- Not modelled: of the log library the output of a line (DisplayLogComponentLevel and the functions
-- behind it, which end in syslog, files and streams), the arming of the signals, and the context of a
-- thread.
pub mod Prelude
pub mod System
pub mod Message
pub mod Kernel
pub mod Transfer
pub mod Framing
pub mod TcpClient
pub mod UnixClient
pub mod Response
pub mod Client
pub mod Queue
pub mod Turn
pub mod Worker
pub mod Accept
pub mod Listen
pub mod Start
pub mod Serve
pub mod Log
pub mod Families
pub mod Format
pub mod Destination
pub mod Replay
pub mod Examples
