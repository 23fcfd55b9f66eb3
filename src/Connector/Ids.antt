-- ===== src/Connector/Ids.antt =====
-- The transaction ids in the messages of both connectors and of the server.
use p2p_ps_stun.Wire.MessageType
