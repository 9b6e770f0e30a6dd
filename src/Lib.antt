-- ===== src/Lib.antt =====
-- A verification library for diginext: a key-value storage server and its client, which exchange
-- JSON texts over TCP, each text Base64 encoded on a line of its own.
--
-- The parts and how they interact. A `tcp_connection` (core/src/TCP/TCPConnection.cpp) queues what
-- it is given to `send`, as Base64 lines, and has boost::asio write one line at a time; it cuts what
-- it reads into lines again, decodes them (core/src/Base64/Base64.cpp) and fires `onReadMessage`.
-- `tcp_server` and `tcp_client` hold such connections and pass their signals on. `StorageServer`
-- (core/src/Storage/StorageServer.cpp) answers each message by one or more calls of `send`, from a
-- map of strings.
--
-- The files, with the code that each is about.
--   Base, Base/*: the outcomes of code (`ok`, `throws`, `undefined` for undefined behaviour, and
--     `out_of_fuel`), lists and bits.
--   Base64: `Encode` and `Decode` of core/src/Base64/Base64.cpp, with their tables, loops, size
--     computations in `size_t` and reads and writes of memory. Base64/Reference is the encoding of
--     RFC 4648 with no memory and no sizes, Base64/Rounds, Base64/Encode, Base64/Decode,
--     Base64/Totality, Base64/Groups, Base64/RoundTrip and Base64/Bounds are the theorems.
--   Tcp/Message: `decode_message`, the frame that `send` builds, and the branch of `handle_read`
--     without an error. Tcp/Message/Lines cuts a stream into lines, independently of the code,
--     Tcp/Message/Order has the messages of a text in order,
--     and Tcp/Message/Pipe tells what is read of some frames, wherever a read cuts them.
--   Tcp/Connection: the class `tcp_connection`. Each method and handler is a function from the
--     object to the new object and its effects in order. Tcp/Connection/Writer has the steps of a
--     connection and its environment (calls of `send` and `stop`, ends of writes, reads, the task
--     that closes the socket), in any interleaving; Tcp/Connection/Reader is the other end, and
--     Tcp/Connection/Writer/Flight is about the write in flight.
--   Tcp/Delivery: the two ends together.
--   Tcp/Channel: the two ends as an interface for the components above: what was sent and what was
--     received.
--   Tcp/Worker: the thread of `tcp_server` and of `tcp_client`, whose code is the same: `start`,
--     `stop`, the destructor, and the steps of the body of the thread. Tcp/Worker/Wait is `waitStart`
--     and `waitStop`, Tcp/Worker/Ends the end of the thread, Tcp/Worker/Stopped `start` of a new and of
--     a stopped worker. How far the thread comes meanwhile is an argument.
--   Tcp/Server: the class `tcp_server` of core/src/TCP/TCPServer.cpp: the list of connections, its
--     memory with shared pointers, and the slots that a connection calls back. Tcp/Server/Removal is
--     about `removeConnectionByUUID` (its recursion has fuel for each connection in the list and
--     one more), Tcp/Server/Lookup about the lookup, Tcp/Server/Sending and
--     Tcp/Server/Broadcast about `send` and `sendAll`, Tcp/Server/Disconnection about
--     `disconnectAll`, Tcp/Server/Acceptance and
--     Tcp/Server/Readiness about `handle_accept`,
--     Tcp/Server/Life about `stop` beside the thread, whose handlers run between its calls,
--     Tcp/Server/Lifetime about the handlers that hold a connection and the task that does not.
--   Tcp/Client: the class `tcp_client` of core/src/TCP/TCPClient.cpp: `connect`, `send`,
--     `disconnect` and the handlers; Tcp/Client/Current tells which signals it passes on,
--     Tcp/Client/Life has `start` and `stop` with the thread.
--   Storage/Key, Storage/Value: core/include/Storage/StorageCommon.h.
--   Storage/Json: what the code uses of nlohmann::json.
--   Storage/Server: the map, the replies and `handle_read_message` of `StorageServer`.
--     Storage/Server/Replies is a table of the requests, their replies and their effect,
--     Storage/Server/Branches and Storage/Server/Requests are the handler against that table,
--     Storage/Server/Runs sequences of messages.
--   Storage/Host: `StorageServer` on its `tcp_server`, whose replies go to the connection that asked.
--     Storage/Host/Answers is about the signals of several clients with one map, Storage/Host/Life has
--     `Started` and `Start`, Storage/Host/Arrival the reads at its connections, in any order,
--     Storage/Host/Served what the host does with them, from the bytes to the frames of the replies,
--     Storage/Host/Requests which messages they make complete, and
--     Storage/Host/Shared what clients read that others have written.
--   Storage/Client: the class `StorageClient` of core/src/Storage/StorageClient.cpp, whose
--     `Disconnect` has the thread run between its two calls, with its connection in
--     Storage/Client/Connection and its answer in Storage/Client/Answer.
--   Storage/Exchange: a client and the server from one end to the other.
--   System: the host, its clients and the bytes between them, in any interleaving of their handlers.
--     System/Peers is about one direction between two ends, System/Pair about one client and the
--     host, System/Invariant about what every step keeps, System/Order about the order and the
--     completeness of what arrives, System/Progress about what can happen next, System/Drain and
--     System/Rest about how the system comes to rest, System/Answer about the answer of a client
--     among others. Clients send messages of two bytes or more there, fewer than 2 ^ 60 bytes: an
--     empty message never arrives, and one byte has no defined encoding.
--     Writes end without an error, no connection ends, and the replies are texts that fit a frame.
--   Programs: `waitAnswer` of the client program, client/src/main.cpp. Programs/Loop is its `main`: a
--     client for each line, from its constructor to its destructor. A visit says what its thread and
--     its handlers do meanwhile; the loop has fuel for each line and one more. Programs/Serving is
--     the server program, server/src/main.cpp, whose loop has fuel for its sleeps,
--     Programs/Logging is test.LogConsole/src/main.cpp.
--   Log: core/src/Log/Log.cpp, core/src/Log/LogConsole.cpp and the switches of core/src/TCP/TCP.cpp,
--     with what is printed as a list of lines. Log/Switches is about the calls of one logger,
--     Log/Connections about the loggers of connections.
--
-- Bytes are natural numbers below 256, a `std::string` is the list of its bytes. `size_t` has 64
-- bits: the wrap-around is written out in Base64 and in Tcp/Message. A statement that needs it bounds
-- the sizes by 2 ^ 62 or 2 ^ 60, far above what memory holds. A `char` is signed.
-- The loops of Base64 recur on fuel, one more than the length of the memory: each round but the last
-- reads a byte at an index that grows.
--
-- Parameters. `Splitter` stands for boost::split with its documented behaviour, `JsonLib` for
-- nlohmann::json (a missing member is no string, parsed strings are UTF-8, `dump` succeeds on UTF-8).
-- boost::asio is the environment: an operation that the code asks for may end at any later step, with
-- any error code, and its handler then runs. Locks: each method is one step, as the code holds its
-- lock, or runs on the one thread of the `io_service`; `start`, `stop` and `Disconnect`, which hold no
-- lock, have the thread run in between.
--
-- Not modelled: the log lines of the other components, what the client program prints but
-- the answers, failure of allocation, `Stop` and
-- the log-only handlers of `StorageServer`, data races on unlocked fields, and
-- the lifetime of connections outside of Tcp/Server/Lifetime.
pub mod Base
pub mod Base64
pub mod Tcp
pub mod Storage
pub mod Programs
pub mod Log
pub mod System
