-- ===== src/Server/Relay.antt =====
-- The handler of `bind_request` in udp_p2p_server.h: it pairs two clients of one transaction.
pub mod Pairing
use p2p_ps_stun.Prelude.{ℕ, Option, none, some, List, [], ◌∷◌, Map, find, insert, erase}
use p2p_ps_stun.Wire.{
  SockaddrIn, Message, zero_message, htonl, ntohl, transaction_id, set_bind_reply,
}
use p2p_ps_stun.Wire.MessageType
use p2p_ps_stun.Server.Types.{Server, socket_0, Sent, Datagram}

-- After the `memset`, with the type set.
abbrev pub ack_message : Message
ack_message = record zero_message { type = MessageType.ack }

abbrev pub bind_reply_message : SockaddrIn → Message
bind_reply_message a = record {
  type = MessageType.bind_reply;
  message = set_bind_reply a (ack_message.message);
}

-- `req` is a reference into `msg`, so the `memset` that prepares the acknowledgement clears the
-- transaction id before it is read: the id is that of the zeroed message.
unfoldable pub bind_request_id : Message → ℕ
unfolding htonl transaction_id
bind_request_id msg = let msg' = ack_message in ntohl (transaction_id msg'.message)

-- What follows the lookup of the transaction `id`.
unfoldable pub relay :
    ℕ → Option SockaddrIn → Map SockaddrIn → SockaddrIn → Map SockaddrIn × List Sent
relay id none m peer_addr = (insert id peer_addr m, [])
relay id (some copeer_addr) m peer_addr = (
  erase id m,
  record { via = socket_0; msg = bind_reply_message copeer_addr; to = peer_addr }
      ∷ record { via = socket_0; msg = bind_reply_message peer_addr; to = copeer_addr }
      ∷ [],
)

unfoldable pub on_bind_request : Server → Datagram → Server × List Sent
unfolding relay
on_bind_request s d =
    let id = bind_request_id d.msg in
    let (m, replies) =
      relay id (find id s.transaction_client_map) s.transaction_client_map d.peer_addr in
    (
      record s { transaction_client_map = m },
      record { via = socket_0; msg = ack_message; to = d.peer_addr } ∷ replies,
    )
