-- ===== src/Server.antt =====
-- The rendezvous server, P2P_PS/sources/server/src/udp_p2p_server.h.
pub mod Types
pub mod Relay
pub mod Prediction
pub mod Loop
pub mod History
