-- ===== src/Lib.antt =====
-- Verification of P2P_PS: UDP hole punching with a rendezvous server, for peers behind NATs that map
-- ports one after the other.
--
-- The program. A server (P2P_PS/sources/server/src/udp_p2p_server.h) listens on two ports and brings
-- pairs of clients together. A client asks with `bind_request` and is told its partner's address; or
-- it asks twice with `ps_bind_request`, from two ports, and both partners are told both addresses of
-- the other and when each was seen. From these a client predicts where the partner's NAT will map its
-- next socket, and tries a range of sockets at once. The clients' side is
-- P2P_PS/sources/client/src: two connectors that use a UDP socket and a port manager, and runners
-- that make many connections from several threads. The messages are in P2P_PS/sources/common.
--
-- The files.
--   Prelude        shared names: numbers, tests, lists, and `std::map` as an association list.
--   Wire           common/messages.h and common/connection_types.h: message types, the union of the
--                  message bodies as one record with views, addresses, byte order.
--   Server         server/src/udp_p2p_server.h. Types is the state, Relay the case `bind_request`,
--                  Prediction the case `ps_bind_request` (update, replies, erasure), Loop the opening
--                  of the sockets, the `switch` and the receive loop of `start`. History is about
--                  sequences of datagrams: Prediction/Machine is the view of one transaction id,
--                  which Prediction/Phases compares with an abstract machine of a meeting.
--   Double         the floating-point numbers that the clients compute with, as a record of
--                  operations.
--   Ports          client/src/connection/port_manager.h: base ports (`assign_next`) and the ports of
--                  a scan (`assign_next_from_base`). Threads is `assign_next` as the atomic steps of
--                  threads that call it at the same time.
--   Socket         client/src/connection/udp_socket.h.
--   Connector      Types is what the connectors share; Basic is client/src/connection/p2p_connector.h;
--                  Target (determine_target_port), Scan (try_start_ps_connection) and Predicting
--                  (connect) are client/src/connection/p2p_ps_connector.h.
--   Connection     client/src/connection/udp_connection.h.
--   Runner         the statistical runners of client/src/main.cpp, as a step relation of 16 threads
--                  over the shared counters.
--   NormalRunner   the normal runners of client/src/main.cpp: one connection, and the two threads
--                  that use it then.
--   Arguments      `main` of client/src/main.cpp: the dispatch on its arguments, and the set-up of the
--                  port manager.
--   Log            common/log.h and log.cpp: the level tests and the text of a line.
--   Clock, Event   common/time_helper.h and common/event.h.
--   Network        the composition: Server and two clients of Connector/Basic, joined by a network
--                  that delays, reorders and loses packets, as a step relation. Aim composes the
--                  server with the scan of a predicting client. Predicting joins Server and two
--                  clients of Connector/Predicting; there a packet may also arrive many times, and
--                  a host is given by the addresses that its messages are seen to come from and the
--                  packets that reach it, which its NAT decides. What the NATs do is a parameter.
--   Tests          concrete packets, rounds, ports and runs.
-- A function of the source has the same name here; a part of a long function has a name of its own,
-- and its comment says which part it is.
--
-- The model. The server's state is the two maps, and a handler returns the new state and the messages
-- sent, in order. What system calls return (socket, bind, sendto, select, recvfrom, getifaddrs), the
-- clock, `rand` and the normal distribution are arguments: each round of a loop takes a record of
-- them. Unsigned numbers wrap where the source's do; floating-point numbers are an abstract type, and
-- theorems that need exact arithmetic take it as the hypothesis `IsExact`. A host is little-endian.
--
-- Loops. The connectors' loops and the server's loop run over a list of rounds, so no fuel is chosen:
-- a loop that needs more rounds than it is given is still `waiting` or `looping`. That five silent
-- rounds (ten in the basic connector) are enough is among the results. The scan is a recursion over
-- its 50 sockets.
--
-- Reading past what there is. An access past the arguments of `main` ends the model of it with
-- `undefined`. `recvfrom` is handed a length that the code leaves uninitialised; the model takes it to
-- be large enough, so that the whole sender address is written.
--
-- The rounds of a network are steps of their own, with the connection attempt in them: what its
-- `select` finds is an argument of the round. Where a theorem gives a course in which clients connect,
-- it also gives the packets that this `select` can find.
--
-- Not modelled. Where the components log, and what `vprintf` makes of a line; the server's `main`,
-- which starts it with the default ports; the map of the port manager while threads interleave;
-- ministun.h and the programs under references/, which are other projects' code that is not built;
-- the scripts of VM-Settings.
pub mod Prelude
pub mod Wire
pub mod Server
pub mod Double
pub mod Ports
pub mod Socket
pub mod Connector
pub mod Runner
pub mod Connection
pub mod NormalRunner
pub mod Arguments
pub mod Network
pub mod Log
pub mod Clock
pub mod Event
mod Tests
