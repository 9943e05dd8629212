-- ===== src/Lib.antt =====
-- The core of libquic, a C++ library for QUIC over UDP, built on ngtcp2: its streams, its socket, its
-- endpoints and its connections. Paths are from the repository's root.
--
-- Stream, with Stream/*: src/stream.cpp and include/quic/stream.hpp. `Stream` holds a queue of views of
-- bytes with the objects that keep them alive, and how many bytes have been sent and not acknowledged.
-- `Buffers` has the queue and the loops over it, `Contents` the bytes that it holds, `Pending`, `Acks` and
-- `Emptied` the theorems on `pending` and `acknowledge`, `Window` the refinement, and `Chunks` the class
-- `chunk_sender`.
-- Udp, with Udp/*: src/udp.cpp. `Gso` has the batches of segmentation offload, `Send` the three modes of
-- `UDPSocket::send`, `Receive` the two of `UDPSocket::receive`, `Writeable` the callbacks that wait for the
-- socket, and `Setup` the system calls of the constructor and the reading of ECN.
-- IoResult: `struct io_result` of include/quic/utils.hpp.
-- Endpoint, with Endpoint/*: src/endpoint.cpp and include/quic/endpoint.hpp. `Packets` has `send_packets`
-- and `send_or_queue_packet`, `Packets.Sending` and `Packets.Modes` the first on top of the socket,
-- `Incoming` what a packet does and how connections are made, `Receive` the datagrams of one event, from the
-- socket to the connections, `Lifecycle` the closing of connections and their timeouts. `Registry` and
-- `Accepting` have the invariant of the map, `Life` an endpoint's operations one after another.
-- Connection, with Connection/*: src/connection.cpp and include/quic/connection.hpp. `Connection` has the
-- handlers of stream events and the queue of pending streams, `Flush` the output loop, which calls
-- `Stream.pending`, ngtcp2, `Stream.wrote` and `Endpoint.Packets.send_packets`, `Flush.Resume` what is sent
-- when a blocked socket is writeable again, `Callbacks` the functions that ngtcp2 is given, `Timer` the
-- retransmit timer, `Setup` the making of a connection, which has `Tls.make_session` make its session, `Steps` the
-- calls that open, use and close streams, and `Life` all that can happen to the streams of a connection, with the output loop and what the application sends.
-- Address, with Address/*: the class Address of include/quic/utils.hpp and src/utils.cpp; `Storage` has its
-- bytes in memory, and the class Path. Cid, with Cid/*: the class ConnectionID of the same files, with its hash.
-- Network, with Network/*: src/network.cpp and include/quic/network.hpp. `Jobs` has the queue of jobs as the
-- steps of threads, `Network` the map of endpoints and the shutdown, `Shutdown` one call of `close`, `History`
-- all of them, `Lifetime` the making of a network.
-- Printer, with Printer/*: the class buffer_printer of the same files.
-- Tls, with Tls/*: src/gnutls_crypto.cpp, include/quic/gnutls_crypto.hpp and include/quic/crypto.hpp.
-- `Credentials` has the theorems on GNUTLSCreds, `Sessions` that on GNUTLSSession.
-- Context: src/context.cpp, include/quic/context.hpp and include/quic/opt.hpp, the options of a context.
-- Base: shared names, tests on numbers, lists, integers, `Outcome`, how a run can end, and `Calls`, calls up
-- to the first that fails.
--
-- A packet reaches the socket's callback, goes to the endpoint's `handle_packet`, which finds or makes its
-- connection and has ngtcp2 read it; ngtcp2 calls the connection's handlers, which act on the streams. A
-- stream with something to send triggers the connection's output loop, which sends through the endpoint and
-- its socket.
--
-- Bytes are natural numbers. A `size_t` is a natural number, with wrap-around modulo 2^64 where the code
-- adds or subtracts without a test. An id of a connection, outside of Cid, or of a callback is a number. The
-- maps are lists of pairs: `std::map` by ascending key; the order of an `unordered_map`, which C++ leaves
-- open, is that of the list. ngtcp2, GnuTLS, libevent, the formatting library, the operating system, the
-- clock, the random numbers and the user's callbacks are arguments, of which a callback gives its result but does nothing else to the objects. Undefined
-- behaviour of C++ is an outcome. Logging and assertions are not modelled: where the code asserts something
-- the theorems assume it or prove it.
--
-- The output loop needs fuel for a pass more than the streams, the pseudo stream and the packets that may
-- be sent. The loops that depend on what the outside answers run on a list of answers or on fuel. The loop of
-- `acknowledge` needs more fuel than the queue has buffers; the destructors of
-- `chunk_sender`, which add buffers during the loop, need no more.
--
-- Not modelled: how libevent runs its loop and its events, the texts of addresses, ids and errors, which
-- are calls of the system and of the formatting library, and Windows.
pub mod Address
pub mod Base
pub mod Cid
pub mod Connection
pub mod Context
pub mod Endpoint
pub mod IoResult
pub mod Network
pub mod Printer
pub mod Stream
pub mod Tls
pub mod Udp
