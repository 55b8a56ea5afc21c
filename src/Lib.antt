-- ===== src/Lib.antt =====
-- A model of spartanX, a library for TCP servers and clients in C with reference counted objects and
-- handlers that are called on dispatch queues, and theorems about it.
--
-- The parts of the program and the files that model them:
-- - Status: the error codes of src/SXError.h, the statuses of src/sx_global.h and the checks
--   SXCheckStatus, SXCheckCompatibleStatus and SXCheckIncompatibleStatus of src/SXQueue.c.
-- - Object: sx_object_t, sx_obj_init, SXRetain, SXRelease and SXFree of src/sx_object.c.
-- - Runtime: sx_runtime_object_t, which servers, connections and clients share, SXSuspendObject,
--   SXResumeObject and the handler slots, of src/sx_object.c and src/sx_event.h.
-- - Socket, with Socket/Dns and Socket/Client: src/SXSocket.c.
-- - Queue: SXCreateQueue and SXFreeQueue of src/SXQueue.c, the object of one connection.
-- - Server: the server's state and control functions, of src/SXServer.c and src/SXServer.h.
-- - Acceptor and Connection: the two blocks of SXServerStart. The first accepts guests and counts
--   them; it starts a second for each guest, which receives, calls the handlers and ends.
-- - Kqueue, with Kqueue/Waiting: SXServerStart_kqueue, one loop that serves the listener and all
--   connections.
-- - Client: src/SXClient.c, with the receive loop of SXStartClient.
-- - Vector and Strings, with Strings/Editing and Strings/Replacing: src/SXVector.c and src/SXString.c.
-- - Lifetime: who holds a running server, from SXServerStart on.
-- - System: a running server as a whole, which puts Server, Object, Acceptor and Connection together:
--   the accepting loop, the blocks that it dispatched, the connections, and a program that calls
--   SXSuspendServer, SXResumeServer and SXKillServer, over one shared server. System/Service is the
--   description by phases and guests that it refines.
-- - Earlier: the earlier copy of the library in Examples/HTTP-proxy. Its shared sockets and connections
--   (SXSocket.c, SXQueue.c) are in Earlier, Earlier/Sockets and Earlier/Scope, its clients (SXClient.c) in
--   Earlier/Client, with their start in Earlier/Starting and their loop in Earlier/Receiving, its servers
--   (SXServer.c) in Earlier/Server and Earlier/Launch, with their accepting loop and the rounds of a
--   connection in Earlier/Serving and SXServerStart_kqueue in Earlier/Kqueue. Its SXString.c and
--   SXVector.c are those of the library.
-- - Proxy: the example, Examples/HTTP-proxy/main.c, which bridges a connection and a client of the
--   earlier copy; Proxy/Main is its start.
-- - Prelude and Loop: shared types, and the shape of a receive loop with the counting of its events.
-- The children of a module hold its theorems, named for what they prove, and its concrete examples.
--
-- How code is read. A field keeps its name in lower case, a function is named like the C function
-- without its prefix, and a null pointer is `none`. Undefined behaviour (a read through NULL, behind a
-- block or of a block that was given back) is the outcome `crash`. A function that stores an error
-- through `err_ret` takes and returns that cell. Counts of objects are integers without a bound, but
-- for the unsigned counts of the earlier copy, which wrap; the conversions to `unsigned short` and
-- `size_t` are written out where the sources convert, and so is the wrap of the `size_t` counters. The
-- `int` variables of the strings (positions, differences and counters of SXString.c) and of the
-- accepting loop (`count`) are natural numbers up to INT_MAX: where a string, two strings together, or the
-- result of a replacement is longer, the functions of Strings that use them crash, also where the C
-- code would convert or wrap and go on, and the theorems on them have these lengths as hypotheses; a
-- `count` that passes INT_MAX crashes.
-- The system calls (`socket`, `bind`, `setsockopt`, `connect`, `send`, `listen`, `inet_pton`,
-- `calloc`) are the record Net, the resolver is the record Resolver, and whether `realloc` moves a
-- block is an argument. The functions of <string.h> are those of Strings/Memory, as C documents them.
-- A handler is present or absent; what it answers, what `recv` and `accept` return and what other
-- threads store in a status are the fields of a round or a pass. A loop is a function of a list of
-- rounds, of any length. The loops of the strings run for a number of rounds that is read off the code:
-- the bound of the loop where it has one, the length of the string for removing, and the bytes up to
-- the bound with the positions for replacing.
-- System is a step relation: a step is what a thread does between two readings of the server's status.
-- A pass of the accepting loop has a step for the test of the loop, one for each of the two tests behind
-- `listen`, the second with `++count`, and one for `accept` and what follows. A round of a connection
-- is two steps: it reads the status, and goes on with what it read. A step that contains `accept` or
-- `recv` is taken when the call returns, so a thread may wait in front of it for any number of steps of the
-- others. A step that crashes or that deallocates the server is no step; the program holds its
-- references all the while, and calls SXSuspendServer, SXResumeServer and SXKillServer only: it does not
-- start the server a second time. `--count` is taken as one operation.
-- Interleavings are else lists of actions (Acceptor, Lifetime) or of events (Kqueue, Earlier/Kqueue). `recv`
-- takes bytes as their number.
--
-- What is not modelled: the contents of messages behind a descriptor, the dispatch queues, the
-- registration in the kernel queue, the user data pointers but for the bridge of the example,
-- the last loop of the example's `main`, which sleeps, what a connection of the earlier copy does behind
-- its rounds (it releases a socket whose count is not initialised), and the Swift port.
pub mod Prelude
pub mod Status
pub mod System
pub mod Object
pub mod Socket
pub mod Runtime
pub mod Queue
pub mod Server
pub mod Loop
pub mod Connection
pub mod Client
pub mod Acceptor
pub mod Lifetime
pub mod Kqueue
pub mod Strings
pub mod Vector
pub mod Earlier
pub mod Proxy
