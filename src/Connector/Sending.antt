-- ===== src/Connector/Sending.antt =====
-- The clients' messages in p2p_connector.h and p2p_ps_connector.h: what a failing `sendto` changes.
use p2p_ps_stun.Prelude.{ℕ, ◌≡◌, true, ◌==◌, arith}
use p2p_ps_stun.Wire.{SockaddrIn, Message, ntohl, transaction_id}
use p2p_ps_stun.Socket.{UdpSocket, send}
use p2p_ps_stun.Connector.Types.{Event, try_connect_to_client, reply_to_bind_request}

-- Whatever `sendto` returns, try_connect_to_client reports success, and reply_to_bind_request reports
-- whether the transaction id is the own one: a message that could not be sent counts as sent.
pub failed_sends_count :
    (id : ℕ) (s : UdpSocket) (msg : Message) (peer_addr : SockaddrIn) (e : Event)
    → ((try_connect_to_client id s e).0 ≡ true)
      × ((reply_to_bind_request id s msg peer_addr e).1
          ≡ (id == ntohl (transaction_id (msg.message))))
unfolding try_connect_to_client reply_to_bind_request send
failed_sends_count id s msg peer_addr e = (ground arith, ground arith)
