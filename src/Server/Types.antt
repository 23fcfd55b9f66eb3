-- ===== src/Server/Types.antt =====
-- The state of `udp_server_t`, and what a handler is given and sends (udp_p2p_server.h).
use p2p_ps_stun.Prelude.{ℕ, Map, []}
use p2p_ps_stun.Wire.{SockaddrIn, Message, no_address}

-- `ps_transaction_t`: the two addresses of each client, and when they were seen. An address whose
-- `addr` is 0 has not been seen.
pub record PsTransaction : Type 0 where
  pub cl1_sk1 : SockaddrIn
  pub cl1_sk2 : SockaddrIn
  pub cl1_ts1 : ℕ
  pub cl1_ts2 : ℕ
  pub cl2_sk1 : SockaddrIn
  pub cl2_sk2 : SockaddrIn
  pub cl2_ts1 : ℕ
  pub cl2_ts2 : ℕ

-- The constructor, with the members' initialisers. The branch of an expired transaction writes the
-- same values over the old ones.
unfoldable pub new_transaction : SockaddrIn → ℕ → PsTransaction
new_transaction addr_1 timestamp_1 = record {
  cl1_sk1 = addr_1;
  cl1_sk2 = no_address;
  cl1_ts1 = timestamp_1;
  cl1_ts2 = 0;
  cl2_sk1 = no_address;
  cl2_sk2 = no_address;
  cl2_ts1 = 0;
  cl2_ts2 = 0;
}

-- The two maps of the server. Its sockets are fixed once it listens.
pub record Server : Type 0 where
  pub transaction_client_map : Map SockaddrIn
  pub ps_transaction_client_map : Map PsTransaction

abbrev pub new_server : Server
new_server = record { transaction_client_map = []; ps_transaction_client_map = [] }

-- `socket_[0]` and `socket_[1]`.
pub data Handle : Type 0 where
  socket_0 socket_1 : Handle

-- One call of `sendto`. Its result is only logged.
pub record Sent : Type 0 where
  pub via : Handle
  pub msg : Message
  pub to : SockaddrIn

-- One received datagram: the buffer `msg` as `recvfrom` leaves it, the sender, and the two readings
-- of the clock that a handler takes at most.
pub record Datagram : Type 0 where
  pub handle : Handle
  pub msg : Message
  pub peer_addr : SockaddrIn
  pub check_time : ℕ
  pub stamp_time : ℕ
