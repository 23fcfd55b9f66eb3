-- ===== src/Server/Loop.antt =====
-- `udp_server_t::start`: opening the sockets, and the receive loop with its `switch`.
pub mod Dispatch
pub mod Rounds
use p2p_ps_stun.Prelude.{
  ℤ, is_minus_one, is_negative, is_positive, Bool, true, false, not, Option, none, some, List, [],
  ◌∷◌, ◌++◌, ◌==◌, if◌then◌else◌,
}
use p2p_ps_stun.Wire.MessageType
use p2p_ps_stun.Server.Types.{Server, socket_0, Sent, Datagram}
use p2p_ps_stun.Server.Relay.{ack_message, on_bind_request}
use p2p_ps_stun.Server.Prediction.{on_ps_bind_request}

-- `case msg.heartbeat`
unfoldable pub on_heartbeat : Server → Datagram → Server × List Sent
on_heartbeat s d = (s, record { via = socket_0; msg = ack_message; to = d.peer_addr } ∷ [])

-- The `switch` over the type of a received message. Any other type is only logged.
unfoldable pub on_message : Server → Datagram → Server × List Sent
unfolding on_heartbeat
on_message s d =
    if d.msg.type == MessageType.ps_bind_request
    then on_ps_bind_request s d
    else if d.msg.type == MessageType.bind_request
    then on_bind_request s d
    else if d.msg.type == MessageType.heartbeat
    then on_heartbeat s d
    else (s, [])

-- A sequence of received datagrams, with everything that is sent, in order.
unfoldable pub serve : Server → List Datagram → Server × List Sent
serve s [] = (s, [])
serve s (d ∷ ds) =
    let (s', out) = on_message s d in let (s'', rest) = serve s' ds in (s'', out ++ rest)

-- What `recvfrom` gives on a socket that `select` reported.
pub data Received : Type 0 where
  failed : Received
  datagram : Datagram → Received

-- One round: `sig_close` when it is tested, the result of `select`, and for each socket, if it is in
-- the set, what is received.
pub record Round : Type 0 where
  pub sig_close : Bool
  pub status : ℤ
  pub first : Option Received
  pub second : Option Received

-- `returned` is the result of `start`; with `listening` the loop goes on.
pub data Listener : Type 0 where
  listening : Server → List Sent → Listener
  returned : Bool → Server → List Sent → Listener

-- The body of the `for` over the two sockets, for one of them.
unfoldable pub poll_socket : Option Received → Listener → Listener
poll_socket r (returned b s out) = returned b s out
poll_socket none (listening s out) = listening s out
poll_socket (some failed) (listening s out) = returned false s out
poll_socket (some (datagram d)) (listening s out) =
    let (s', more) = on_message s d in listening s' (out ++ more)

unfoldable pub poll : Round → Server → List Sent → Listener
unfolding poll_socket
poll r s out =
    if r.sig_close
    then returned true s out
    else if is_negative r.status
    then returned false s out
    else poll_socket r.second (poll_socket r.first (listening s out))

unfoldable pub listen : Listener → List Round → Listener
listen (returned b s out) rs = returned b s out
listen (listening s out) [] = listening s out
listen (listening s out) (r ∷ rs) = listen (poll r s out) rs

-- The results of the system calls before the loop: `socket` and `bind`, for each port.
pub record Opening : Type 0 where
  pub socket_1_result : ℤ
  pub bind_1_result : ℤ
  pub socket_2_result : ℤ
  pub bind_2_result : ℤ

-- Whether `start` reaches its loop. The tests are the source's: `bind` is taken to have failed only
-- if its result is above 0.
unfoldable pub opens : Opening → Bool
opens o =
    if is_minus_one o.socket_1_result
    then false
    else if is_positive o.bind_1_result
    then false
    else if is_minus_one o.socket_2_result
    then false
    else not (is_positive o.bind_2_result)

unfoldable pub start : Server → Opening → List Round → Listener
unfolding opens listen
start s o rs = if opens o then listen (listening s []) rs else returned false s []
