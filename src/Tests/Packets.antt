-- ===== src/Tests/Packets.antt =====
-- Packets to the server of udp_p2p_server.h: two clients, `alice` and `bob`, who ask twice each.
use p2p_ps_stun.Prelude.{ℕ}
use p2p_ps_stun.Wire.{SockaddrIn, Message, zero_payload, af_inet, htonl, htons, set_transaction_id}
use p2p_ps_stun.Wire.MessageType
use p2p_ps_stun.Server.Types.{Datagram, socket_0, socket_1}

abbrev pub address : ℕ → ℕ → SockaddrIn
address host port = record { family = af_inet; port = htons port; addr = host; pad = 0 }

abbrev pub alice : ℕ
alice = 10

abbrev pub bob : ℕ
bob = 20

abbrev pub request : ℕ → ℕ → Message
request type id = record { type = type; message = set_transaction_id (htonl id) zero_payload }

abbrev pub ps_request : ℕ → Message
ps_request = request MessageType.ps_bind_request

abbrev pub a1 : Datagram
a1 = record {
  handle = socket_0;
  msg = ps_request 7;
  peer_addr = address alice 4000;
  check_time = 1000;
  stamp_time = 1000;
}

abbrev pub a2 : Datagram
a2 = record {
  handle = socket_1;
  msg = ps_request 7;
  peer_addr = address alice 4002;
  check_time = 2000;
  stamp_time = 2000;
}

abbrev pub b1 : Datagram
b1 = record {
  handle = socket_0;
  msg = ps_request 7;
  peer_addr = address bob 5000;
  check_time = 3000;
  stamp_time = 3000;
}

abbrev pub b2 : Datagram
b2 = record {
  handle = socket_1;
  msg = ps_request 7;
  peer_addr = address bob 5003;
  check_time = 4000;
  stamp_time = 4001;
}

-- A request for another transaction.
abbrev pub other : Datagram
other = record {
  handle = socket_0;
  msg = ps_request 8;
  peer_addr = address 30 6000;
  check_time = 3500;
  stamp_time = 3500;
}

-- Requests of the basic kind, with different ids.
abbrev pub basic : ℕ → ℕ → ℕ → Datagram
basic host id time = record {
  handle = socket_0;
  msg = request MessageType.bind_request id;
  peer_addr = address host 4000;
  check_time = time;
  stamp_time = time;
}
