-- ===== src/Lib.antt =====
-- JKYi, a C++ server framework: a model of its byte streams, of what is built on them, of its
-- scheduler, its I/O events, its timers, its WebSocket frames, its servlet dispatch, and
-- the connectors and connections of its reactor, with the theorems that make them correct.
--
-- The parts and their files (paths from the repository's root):
-- - Endian: byte order, JKYi/endian.h. The platform's BYTE_ORDER is the parameter `host`.
-- - ByteArray and its children: the stream of bytes over a chain of nodes, JKYi/bytearray.h and
--   JKYi/bytearray.cc. `write`, `read`, `read_at`, `set_position`, `add_capacity`, `clear` and
--   `to_string` are the methods of these names (`read_at` is `read` with a position). A method is a
--   function from a state to an outcome: a value with the new state, the exception
--   `std::out_of_range` with the state it leaves, or a fault (undefined behaviour). ByteArray.Chain
--   is about the loops over the nodes, Inv about the invariant, Content about the flat sequence of
--   stored bytes, Write and Read about the methods on that sequence.
-- - Codec and its children: numbers and strings in the byte array, the methods writeFint8 to
--   readStringVint of JKYi/bytearray.cc. Int has the integers, Zigzag and Varint the encodings, and
--   Reread what a writer and a reader of any value share.
-- - Buffer and its children: the growing buffer of the reactor's connections,
--   JKYi/reactor/Buffer.h and JKYi/reactor/Buffer.cc. A failed JKYI_ASSERT is `none`. Views has the
--   invariant, Space the growing and appending, Bytes the taking out and prepending, Ints the numbers,
--   Find the searches. What `readv` gives is an argument of `read_fd`.
-- - Http2.StaticTable, Http2.DynamicTable and its children: the header tables of HPACK,
--   JKYi/http2/dynamic_table.h and JKYi/http2/dynamic_table.cc. Eviction is about `update`, Indices
--   about the indices after it, Search and Lookup about `findIndex` and `findPair`. `update` is `none`
--   where a size leaves the range of an int, and `findPair` where its loop reads outside the vector.
-- - Http2.Hpack and its children: the integers of HPACK, WriteVarInt and ReadVarInt of
--   JKYi/http2/hpack.cc, over the byte array. VarInt is about what is written, ReadBack about what is
--   read there. At most 10 bytes follow the prefix of a number of 64 bits, which bounds both loops.
-- - Http2.Frame and its children: frames over the byte array, JKYi/http2/frame.h and
--   JKYi/http2/frame.cc: Header has FrameHeader and the frames of one number, Settings the SETTINGS
--   frame, Data the DATA frame, Trips what they share.
-- - Stream and its children: JKYi/stream.h and JKYi/stream.cc, reading and writing a fixed number of
--   bytes. The virtual `read`, `write` and `close` of a stream are the fields of a record, over any
--   state. The loops recur on a bound of what is left, which is the size itself: every turn but the
--   last lowers it. FixSize is about any stream, Delivery
--   about streams that work, Finite about streams that end.
-- - WebSocket and its children: frames over a stream, WSRecvMessage, WSSendMessage, WSPing and
--   WSPong of JKYi/http/ws_session.cc. The value of `rand()` and the configured size limit are
--   arguments, and bit-fields and integers lie in memory as on x86. `recv_message` is given the
--   number of turns of its loop; Ends says how many are enough. It is also `none` where a message has
--   grown above 2 GB, as a larger limit lets it, and is then written outside of its data. Masks, Send, Receive and Turns are
--   about the masking, the sender and the receiver, Trips about both, Limit about the size, Control
--   about pings.
-- - Servlet and its children: ServletDispatch of JKYi/http/servlet.h and JKYi/http/servlet.cc. The map
--   of exact paths is a function and the vector of patterns a list; `fnmatch` of the C library and
--   what a servlet does are parameters. Globs is about the patterns.
-- - Timer and its children: the timers, JKYi/timer.h and JKYi/timer.cc. Timers are addresses in a
--   heap, and the std::set of them is a list in the comparator's order. onTimerInsertedAtFront is
--   counted by `wakeups`, and the clock is an argument of each operation that reads it. Ordered is
--   about the comparator and the set, Live about the invariant and cancel, Reschedule about
--   addTimer, refresh and reset, Due, Expired and Listed about the steps of listExpiredCb, Calls
--   about its whole and getNextTimer.
-- - Scheduler and its children: JKYi/scheduler.h and JKYi/scheduler.cc, with the states of
--   JKYi/fiber.h and JKYi/fiber.cc. `schedule_no_lock` and `pick` are the work on the queue under the
--   lock. Workers cuts the loop of `run` at its lock, at the switches of the context and at its
--   changes of the counters; the steps of any threads interleave. Inside a fiber nothing is
--   modelled but how it leaves. What a thread does between two steps is seen by other threads at
--   once. Pick is about the search, Counts, Turns and Leaves about what each step keeps, Stopping
--   about any interleaving.
-- - IoManager and its children: the events of JKYi/iomanager.h and JKYi/iomanager.cc: addEvent,
--   delEvent, cancelEvent, cancelAll, and the turn of idle on a reported event. `epoll_ctl` is a
--   parameter that is relied on to change the interest list as documented, and to change nothing if it
--   fails. Each operation is one step, as the lock of the descriptor makes it, and a failed assertion
--   is `none`. addEvent takes two locks one after the other where the contexts are too few
--   (`add_grown`); a call of another thread that comes between them is not followed. Trigger is about triggerEvent, Add about addEvent, Operations about the operations on
--   one event, Both about those on two, Reached about any run.
-- - Reactor.Connection and its children: a connection of the reactor, JKYi/reactor/TcpConnection.h
--   and JKYi/reactor/TcpConnection.cc, over the buffers of Buffer. What `write` and `readv` give is an
--   argument; the queue of the loop holds functors, the callbacks of the user are told, and what they
--   call comes as further steps. A failed JKYI_ASSERT is `none`. Output is about sending, Writes about
--   handleWrite, Steps about what each step keeps, Reached about any run, Flush about a socket that
--   stays writable.
-- - Reactor.LoopPool: the choice of a loop, JKYi/reactor/EventLoopThreadPool.h and
--   JKYi/reactor/EventLoopThreadPool.cc.
-- - Reactor.Connector and its children: the connector of the reactor, JKYi/reactor/Connector.h and
--   JKYi/reactor/Connector.cc, with handleEventWithGuard of JKYi/reactor/channel.cc as it calls a
--   connector. A failed JKYI_ASSERT is `none`; the errno of connect, the pending socket error and the
--   new descriptor are what the environment chooses. Steps has the steps of the owner and of the
--   loop, Owner and Callbacks what each keeps, Reached what any run of them keeps.
-- - Base: numbers, lists, masks and blocks, which are not code of the repository.
--
-- Sizes are natural numbers; a difference of two `size_t` wraps at 2 ^ 64 where the code does not
-- guard it. A byte is a number, and a byte of fresh memory has an unknown value (`junk`). The loops
-- over nodes recur on the chain, the loop of writeUint32 on the room left in its array, and the loop
-- of readUint32 on the values of its counter, so none runs out of fuel that the code does not count.
--
-- Not modelled: the Huffman code and the strings of HPACK, the other frames, files, system calls,
-- the WebSocket handshake, the rest of the reactor, the switch of contexts and the stacks of
-- coroutines, the start and the join of threads, the pipe and the waiting of the I/O events, the
-- generated parsers, and the bindings to client libraries; memory is taken to be found by every
-- allocation.
pub mod Base
pub mod Endian
pub mod ByteArray
pub mod Codec
pub mod Buffer
pub mod Http2
pub mod Stream
pub mod IoManager
pub mod Scheduler
pub mod Servlet
pub mod Timer
pub mod WebSocket
pub mod Reactor
