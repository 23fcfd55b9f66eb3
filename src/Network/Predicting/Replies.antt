-- ===== src/Network/Predicting/Replies.antt =====
-- Rounds of a client of p2p_ps_connector.h that is not behind a symmetric NAT, when all that is sent
-- arrives.
use p2p_ps_stun.Prelude.{
  ℕ, pos, ◌^◌, ◌<◌, ◌≡◌, ◌≢◌, refl, true, false, not, ◌&&◌, ◌==◌, [], ◌∷◌, ==_refl, ne→==, arith,
}
use p2p_ps_stun.Wire.{
  SockaddrIn, Payload, zero_message, htons, ntohs, ntohl, transaction_id, stun_server_addr,
}
use p2p_ps_stun.Wire.MessageType
use p2p_ps_stun.Wire.Addressing.{htons-ntohs, ntohs-known}
use p2p_ps_stun.Double.{Double}
use p2p_ps_stun.Ports.{PortManager}
use p2p_ps_stun.Socket.{UdpSocket, wait_receive, send, set_target_address}
use p2p_ps_stun.Connector.Types.{
  connection_successful, Outgoing, make_message, try_connect_to_client, reply_to_bind_request,
}
use p2p_ps_stun.Connector.Target.{determine_target_port}
use p2p_ps_stun.Connector.Scan.{Trial, Attempt, scan_range, try_direct, try_start_ps_connection}
use p2p_ps_stun.Connector.Predicting.{
  Config, Loop, goes_on, after_attempt, on_ps_bind_reply, on_client_bind_request, on_message, round,
  result_of,
}
use p2p_ps_stun.Network.{Packet}
use p2p_ps_stun.Network.Schedule.{told}
use p2p_ps_stun.Network.Predicting.Schedule.{trial, turn}

-- A client's request to its peer.
abbrev pub call : Config → SockaddrIn → Outgoing
call c peer = record {
  msg = make_message MessageType.client_bind_request c.transaction_id zero_message;
  to = peer;
}

-- The reply lets a client at the time `now` predict the port of the address `y`.
pub record IsPrediction (f : Double) (y : SockaddrIn) (reply : Payload) (now : ℕ) : Type 0 where
  pub port : ℕ
  pub determined :
      determine_target_port f
        (ntohs (reply.addr_one.port))
        (ntohs (reply.addr_two.port))
        reply.t1
        reply.t2
        scan_range
        now
      ≡ port
  pub known : port ≢ 0
  pub aimed : record (reply.addr_one) { port = htons port } ≡ y

-- A client that predicts the address `y` calls it.
module _ (f d : Double) (c : Config) (y : SockaddrIn) (reply : Payload) (now : ℕ) where
  abbrev attempted : UdpSocket → PortManager → Attempt
  attempted s ports = record {
    success = pos 1;
    socket = record s { target_address = y };
    ports = ports;
    sent = call c y ∷ [];
    closed = [];
  }

  attempt_calls :
      (base_port : ℕ) (s : UdpSocket) (ports : PortManager) (p : Packet)
      → c.is_sym_nat ≡ false
      → IsPrediction f y reply now
      → try_start_ps_connection d f c.is_sym_nat c.transaction_id base_port reply s ports
          (trial d now p)
        ≡ attempted s ports
  unfolding try_start_ps_connection try_direct try_connect_to_client send set_target_address
  attempt_calls base_port s ports p direct v =
      rw (direct, v.determined, v.aimed, ne→== v.port 0 v.known) refl

-- The port of a NAT that shows one port to all is predicted.
pub one_port :
    (f : Double) (y : SockaddrIn) (t1 t2 now : ℕ)
    → y.port < 2 ^ 16
    → y.port ≢ 0
    → IsPrediction f y (record { addr_one = y; addr_two = y; t1 = t1; t2 = t2 }) now
unfolding determine_target_port
one_port f y t1 t2 now small known = record {
  port = ntohs y.port;
  determined = rw (==_refl (ntohs y.port)) refl;
  known = ntohs-known y.port small known;
  aimed = rw (htons-ntohs y.port small) refl;
}

-- The loop of a client that has called its peer.
abbrev pub called : Config → SockaddrIn → Packet → Loop → Loop
called c y p l = record l {
  socket = record (l.socket) { target_address = y; peer_address = p.from };
  attempts_left = 1;
  sent = call c y ∷ [];
}

from_server :
    (c : Config) (x : SockaddrIn)
    → x.addr ≡ (stun_server_addr c.stun_server_address1).addr
    → (not (x.addr == (stun_server_addr c.stun_server_address2).addr)
        && not (x.addr == (stun_server_addr c.stun_server_address1).addr))
      ≡ false
from_server c x h = ground arith

-- A reply of the server starts an attempt.
pub told_round :
    (f d : Double) (c : Config) (p : Packet) (t : Trial d) (l : Loop)
    → p.msg.type ≡ MessageType.ps_bind_reply
    → p.from.addr ≡ (stun_server_addr c.stun_server_address1).addr
    → round f d c (record { event = told p; trial = t }) l ≡ (
        let s = record (l.socket) { peer_address = p.from } in
        after_attempt
          (record l { socket = s })
          (try_start_ps_connection d f c.is_sym_nat c.transaction_id l.base_port
            (p.msg.message)
            s
            l.ports
            t))
unfolding round on_message on_ps_bind_reply wait_receive
told_round f d c p t l kind from = rw (kind, from_server c p.from from) refl

pub reply_round :
    (f d : Double) (c : Config) (y : SockaddrIn) (now : ℕ) (p : Packet) (l : Loop)
    → c.is_sym_nat ≡ false
    → IsPrediction f y (p.msg.message) now
    → p.msg.type ≡ MessageType.ps_bind_reply
    → p.from.addr ≡ (stun_server_addr c.stun_server_address1).addr
    → l.sent ≡ []
    → l.closed ≡ []
    → round f d c (turn d now p) l ≡ goes_on (called c y p l)
unfolding after_attempt
reply_round f d c y now p l direct predicted kind from empty none_closed =
    let s = record (l.socket) { peer_address = p.from } in
    rw
      (
        told_round f d c p (trial d now p) l kind from,
        attempt_calls f d c y (p.msg.message) now l.base_port s l.ports p direct predicted,
        empty,
        none_closed,
      )
      refl

-- The loop of a client that is connected and sends to `y`: `connect` will report success.
pub record IsConnected (y : SockaddrIn) (l : Loop) : Type 0 where
  pub up : l.connection_established ≡ true
  pub target : l.socket.target_address ≡ y
  pub success : result_of l.state ≡ connection_successful

-- A client's answer to its peer's request.
abbrev pub respond : Config → SockaddrIn → Outgoing
respond c peer = record {
  msg = make_message MessageType.client_bind_response c.transaction_id zero_message;
  to = peer;
}

-- A request with the own id connects a client with its sender.
pub call_round :
    (f d : Double) (c : Config) (p : Packet) (l : Loop)
    → p.msg.type ≡ MessageType.client_bind_request
    → ntohl (transaction_id (p.msg.message)) ≡ c.transaction_id
    → l.sent ≡ []
    → (l' : Loop) × (round f d c (turn d 0 p) l ≡ goes_on l')
      × IsConnected p.from l'
      × (l'.sent ≡ respond c p.from ∷ [])
unfolding round on_message on_client_bind_request wait_receive reply_to_bind_request send
    set_target_address result_of
call_round f d c p l kind id empty =
    rw (kind, id, ==_refl c.transaction_id, empty)
      (_, refl, record { up = refl; target = refl; success = refl }, refl)
