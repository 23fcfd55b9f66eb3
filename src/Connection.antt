-- ===== src/Connection.antt =====
-- `udp_connection`, P2P_PS/sources/client/src/connection/udp_connection.h: a socket and the connector
-- that is run on it.
use p2p_ps_stun.Prelude.{ℕ, ℤ, pos, negsuc, ◌-◌, ◌%◌, ◌^◌, Bool}
use p2p_ps_stun.Socket.{UdpSocket, new_socket, init, Reception, send, receive, wait_receive}
use p2p_ps_stun.Connector.Types.{ConnectResult}

pub record UdpConnection : Type 0 where
  pub socket : UdpSocket

-- The constructor: `assert("socket failed init")` tests a text, so a failure of `init` passes.
unfoldable pub new_connection : ℤ → UdpConnection
new_connection socket_result = record { socket = (init socket_result new_socket).0 }

-- `connect` runs the algorithm on the socket, which the algorithm changes.
unfoldable pub connect :
    (UdpSocket → UdpSocket × ConnectResult) → UdpConnection → UdpConnection × ConnectResult
connect connector_algorithm c =
    let (socket, result) = connector_algorithm c.socket in (record { socket = socket }, result)

-- An `int` as `uint32_t`.
abbrev pub unsigned : ℤ → ℕ
unsigned (pos n) = n % 2 ^ 32
unsigned (negsuc n) = 2 ^ 32 - 1 - n % 2 ^ 32

unfoldable pub connection_send : ℤ → UdpConnection → Bool
connection_send sendto_result c = send sendto_result

unfoldable pub connection_receive : Reception → UdpConnection → UdpConnection × ℕ
connection_receive r c =
    let (socket, result) = receive c.socket r in (record { socket = socket }, unsigned result)

unfoldable pub connection_wait_receive : Reception → UdpConnection → UdpConnection × ℕ
connection_wait_receive r c =
    let (socket, result) = wait_receive c.socket r in (record { socket = socket }, unsigned result)
