-- ===== src/Server/History.antt =====
-- Sequences of datagrams through the `switch` of udp_p2p_server.h: what one transaction id sees.
pub mod Isolation
pub mod Soundness
pub mod Matching
pub mod Turns
pub mod SameHost
pub mod Times
