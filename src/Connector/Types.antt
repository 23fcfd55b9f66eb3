-- ===== src/Connector/Types.antt =====
-- What the two connectors share: the results of connection_types.h, the states, and the messages
-- between two clients, which p2p_connector.h and p2p_ps_connector.h write in the same words.
use p2p_ps_stun.Prelude.{
  ℕ, ℤ, pos, is_minus_one, Bool, true, false, List, [], ◌∷◌, ◌==◌, if◌then◌else◌,
}
use p2p_ps_stun.Wire.{SockaddrIn, Message, htonl, ntohl, transaction_id, set_transaction_id}
use p2p_ps_stun.Wire.MessageType
use p2p_ps_stun.Socket.{UdpSocket, Reception, send, set_target_address}

-- `connect_result_e`
pub data ConnectResult : Type 0 where
  invalid : ConnectResult
  connection_failed_no_server_match_in_time : ConnectResult
  connection_successful : ConnectResult
  connection_failed : ConnectResult
  connection_error : ConnectResult

-- `enum state` of both connectors.
pub data State : Type 0 where
  invalid disconnected waiting_for_stun_reply waiting_for_client_reply connected : State

-- One call of `sendto`: the message and where to.
pub record Outgoing : Type 0 where
  pub msg : Message
  pub to : SockaddrIn

-- What one round of a connector's loop gets from outside: what is received, the result of `sendto`
-- if it sends, and what the memory of its uninitialised `message_t` holds.
pub record Event : Type 0 where
  pub reception : Reception
  pub sendto_result : ℤ
  pub stack : Message

-- `message.type = type; message.message....transaction_id = htonl(id)`
unfoldable pub make_message : ℕ → ℕ → Message → Message
make_message type id m = record { type = type; message = set_transaction_id (htonl id) (m.message) }

-- A `bool` that is stored in an `int`.
abbrev pub as_int : Bool → ℤ
as_int true = pos 1
as_int false = pos 0

-- `try_connect_to_client`: whether it reports success, and what it sends. The `bool` of `send` is
-- compared with -1.
unfoldable pub try_connect_to_client : ℕ → UdpSocket → Event → Bool × List Outgoing
try_connect_to_client id s e =
    let result = as_int (send e.sendto_result) in
    (
      if is_minus_one result then false else true,
      record {
        msg = make_message MessageType.client_bind_request id e.stack;
        to = s.target_address;
      }
          ∷ [],
    )

-- `reply_to_bind_request`, for the request in `msg` of `peer_addr`.
unfoldable pub reply_to_bind_request :
    ℕ → UdpSocket → Message → SockaddrIn → Event → UdpSocket × Bool × List Outgoing
reply_to_bind_request id s msg peer_addr e =
    if id == ntohl (transaction_id (msg.message))
    then (
      set_target_address peer_addr s,
      if is_minus_one (as_int (send e.sendto_result)) then false else true,
      record { msg = make_message MessageType.client_bind_response id e.stack; to = peer_addr }
          ∷ [],
    )
    else (s, false, [])
