-- ===== src/Network/Schedule.antt =====
-- A schedule of the network in which both clients of p2p_connector.h connect.
use p2p_ps_stun.Prelude.{pos, ◌^◌, ◌<◌, ◌≡◌, refl, true, false, [], ◌∷◌, arith}
use p2p_ps_stun.Wire.{SockaddrIn, zero_message, bind_reply, ntohl, transaction_id, stun_server_addr}
use p2p_ps_stun.Wire.MessageType
use p2p_ps_stun.Wire.Addressing.{id_round_trip}
use p2p_ps_stun.Socket.{UdpSocket, Reception, wait_receive, send, set_target_address}
use p2p_ps_stun.Connector.Types.{
  Outgoing, Event, waiting_for_stun_reply, make_message, try_connect_to_client,
  reply_to_bind_request,
}
use p2p_ps_stun.Connector.Basic.{Config, Loop, Greeting, looping, greet, round, is_over}
use p2p_ps_stun.Connector.Basic.Outcome.{first_request}
use p2p_ps_stun.Network.{Packet, Hears}

-- The packet is received, and what is sent leaves the host.
abbrev pub heard : Packet → Reception
heard p = record { select_result = pos 1; result = pos 60; msg = p.msg; sender = p.from }

abbrev pub told : Packet → Event
told p = record { reception = heard p; sendto_result = pos 60; stack = zero_message }

pub heard-Hears : (p : Packet) → Hears (heard p) p
heard-Hears p = record { selected = refl; received = refl; told = refl; heard_from = refl }

-- The loop that an acknowledgement starts.
abbrev pub opened : Config → UdpSocket → Packet → Loop
opened c s p = record {
  socket = record s {
    target_address = stun_server_addr c.stun_server_address;
    peer_address = p.from;
  };
  state = waiting_for_stun_reply;
  connection_established = false;
  attempts_left = 10;
  sent = first_request c ∷ [];
}

abbrev pub acked : Packet → Greeting
acked p = record { sendto_result = pos 60; reception = heard p }

pub greet-opened :
    (c : Config) (s : UdpSocket) (p : Packet) → greet c s (acked p) ≡ looping (opened c s p)
unfolding greet wait_receive send set_target_address
greet-opened c s p = refl

-- A client's request to its peer.
abbrev pub call : Config → SockaddrIn → Outgoing
call c peer = record {
  msg = make_message MessageType.client_bind_request c.transaction_id zero_message;
  to = peer;
}

-- The server's reply makes a client call its peer, and its loop goes on.
pub reply_round :
    (c : Config) (p : Packet) (l : Loop)
    → is_over l ≡ false
    → l.sent ≡ []
    → p.msg.type ≡ MessageType.bind_reply
    → p.from ≡ stun_server_addr c.stun_server_address
    → (is_over (round c (told p) l) ≡ false)
      × ((round c (told p) l).sent ≡ call c (bind_reply (p.msg.message)) ∷ [])
unfolding round is_over wait_receive send set_target_address try_connect_to_client
reply_round c p l more empty kind from = ground arith

-- A request with the own id connects a client.
pub call_round :
    (c : Config) (p : Packet) (l : Loop)
    → is_over l ≡ false
    → p.msg.type ≡ MessageType.client_bind_request
    → ntohl (transaction_id (p.msg.message)) ≡ c.transaction_id
    → (round c (told p) l).connection_established ≡ true
unfolding round is_over wait_receive send set_target_address reply_to_bind_request
call_round c p l more kind id = ground arith

pub call-id :
    (c : Config) (peer : SockaddrIn)
    → c.transaction_id < 2 ^ 32
    → ntohl (transaction_id ((call c peer).msg.message)) ≡ c.transaction_id
unfolding make_message
call-id c peer h = id_round_trip c.transaction_id (zero_message.message) h
