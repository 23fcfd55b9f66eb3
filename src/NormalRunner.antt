-- ===== src/NormalRunner.antt =====
-- `normal_runner` and `normal_runner_ps` of P2P_PS/sources/client/src/main.cpp: one connection, and
-- the two threads that use it then. Nothing sets `quit`, so neither of their loops ends.
pub mod Heartbeats
use p2p_ps_stun.Prelude.{ℕ, ℤ, ◌+◌, ◌-◌, Bool, true, false, List, [], ◌∷◌, ◌++◌, length, take}
use p2p_ps_stun.Wire.{SockaddrIn, Address}
use p2p_ps_stun.Socket.{UdpSocket, Reception}
use p2p_ps_stun.Connection.{connect, UdpConnection, connection_receive, connection_send}
use p2p_ps_stun.Connector.Types.{
  ConnectResult, connection_successful, connection_failed_no_server_match_in_time,
  connection_failed, connection_error,
}
use p2p_ps_stun.Connector.Basic
use p2p_ps_stun.Connector.Predicting

-- The id that every client of this mode uses.
abbrev pub transaction_id : ℕ
transaction_id = 1337

-- The connector of `normal_runner`.
abbrev pub basic_config : Address → Basic.Config
basic_config address = record { stun_server_address = address; transaction_id = transaction_id }

-- The connector of `normal_runner_ps`.
abbrev pub predicting_config : Address → Address → Bool → Predicting.Config
predicting_config address1 address2 is_sym_nat = record {
  stun_server_address1 = address1;
  stun_server_address2 = address2;
  is_sym_nat = is_sym_nat;
  transaction_id = transaction_id;
}

-- A turn of one of the two threads: the main thread receives a datagram, or the heartbeat thread has
-- slept for three seconds and sends.
pub data Turn : Type 0 where
  receives : Reception → Turn
  beats : ℤ → Turn

-- The connection and where the heartbeats went.
unfoldable pub turn : Turn → UdpConnection → UdpConnection × List SockaddrIn
turn (receives r) c = ((connection_receive r c).0, [])
turn (beats sendto_result) c = (c, c.socket.target_address ∷ [])

unfoldable pub session : List Turn → UdpConnection → UdpConnection × List SockaddrIn
unfolding turn
session [] c = (c, [])
session (t ∷ ts) c =
    let (c', out) = turn t c in let (c'', rest) = session ts c' in (c'', out ++ rest)

-- What follows the connection: what is printed, "1" or "0", and where the heartbeats go.
unfoldable pub after_connect : ConnectResult → List Turn → UdpConnection → ℕ × List SockaddrIn
unfolding session
after_connect connection_successful ts c = (49, (session ts c).1)
after_connect _ ts c = (48, [])

-- `run` with a connector.
unfoldable pub run :
    (UdpSocket → UdpSocket × ConnectResult) → List Turn → UdpConnection → ℕ × List SockaddrIn
unfolding connect after_connect
run connector ts c = let (c', result) = connect connector c in after_connect result ts c'

-- The text of a heartbeat, "%s | Hi!" in a buffer of 254 bytes, for the text that `inet_ntoa` gives,
-- and how many bytes are sent of it.
unfoldable pub heartbeat : List ℕ → List ℕ × ℕ
heartbeat own_address =
    let text = own_address ++ 32 ∷ 124 ∷ 32 ∷ 72 ∷ 105 ∷ 33 ∷ [] in (take 253 text, length text + 1)
