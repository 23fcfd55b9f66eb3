-- ===== src/Connector.antt =====
-- The two connectors of the client: P2P_PS/sources/client/src/connection/p2p_connector.h and
-- p2p_ps_connector.h.
pub mod Types
pub mod Ids
pub mod Sending
pub mod Basic
pub mod Target
pub mod Scan
pub mod Predicting
