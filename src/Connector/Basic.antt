-- ===== src/Connector/Basic.antt =====
-- `p2p_connector_t`, P2P_PS/sources/client/src/connection/p2p_connector.h: hole punching through a
-- server that tells each client the other's address.
pub mod Rounds
pub mod Termination
pub mod Success
pub mod Outcome
use p2p_ps_stun.Prelude.{
  ℕ, ℤ, pos, is_minus_one, is_negative, is_zero, Bool, true, false, not, ◌&&◌, ◌||◌, List, [], ◌∷◌,
  ◌++◌, ◌-◌, ◌==◌, if◌then◌else◌,
}
use p2p_ps_stun.Wire.{SockaddrIn, Message, Address, zero_message, bind_reply, stun_server_addr}
use p2p_ps_stun.Wire.MessageType
use p2p_ps_stun.Socket.{UdpSocket, Reception, send, wait_receive, set_target_address}
use p2p_ps_stun.Connector.Types.{
  ConnectResult, connection_failed_no_server_match_in_time, connection_successful,
  connection_failed, connection_error, State, waiting_for_stun_reply, waiting_for_client_reply,
  connected, Outgoing, Event, make_message, try_connect_to_client, reply_to_bind_request,
}

-- The members that the caller sets.
pub record Config : Type 0 where
  pub stun_server_address : Address
  pub transaction_id : ℕ

-- The variables of the loop in `connect`, and what has been sent so far.
pub record Loop : Type 0 where
  pub socket : UdpSocket
  pub state : State
  pub connection_established : Bool
  pub attempts_left : ℕ
  pub sent : List Outgoing

abbrev pub attempts : ℕ
attempts = 10

abbrev pub attempts_after_reply : ℕ
attempts_after_reply = 3

-- `attempts_left--`, reached with `attempts_left` above 0.
abbrev pub use_attempt : Loop → Loop
use_attempt l = record l { attempts_left = l.attempts_left - 1 }

-- No message in time.
unfoldable pub on_timeout : Config → Event → State → Loop → Loop
on_timeout c e waiting_for_client_reply l =
    use_attempt
      (record l { sent = l.sent ++ (try_connect_to_client c.transaction_id l.socket e).1 })
on_timeout c e _ l = use_attempt l

-- `bind_reply`, from the address that it is expected from.
unfoldable pub on_bind_reply : Config → Event → Loop → Loop
on_bind_reply c e l =
    let socket = set_target_address (bind_reply (e.reception.msg.message)) l.socket in
    let (success, out) = try_connect_to_client c.transaction_id socket e in
    let l' = record l { socket = socket; sent = l.sent ++ out } in
    if success
    then record l' { state = waiting_for_client_reply; attempts_left = attempts_after_reply }
    else use_attempt l'

unfoldable pub on_client_bind_request : Config → Event → Loop → Loop
on_client_bind_request c e l =
    let (socket, success, out) =
      reply_to_bind_request c.transaction_id l.socket e.reception.msg l.socket.peer_address e in
    let l' = record l { socket = socket; sent = l.sent ++ out } in
    if success
    then record l' { connection_established = true; state = connected }
    else use_attempt l'

abbrev pub is_from : SockaddrIn → SockaddrIn → Bool
is_from a b = a.addr == b.addr && a.port == b.port

-- The `switch` over the type of the message that was received. `l.socket.peer_address` is its
-- sender.
unfoldable pub on_message : Config → Event → Loop → Loop
unfolding on_bind_reply on_client_bind_request
on_message c e l =
    let type = e.reception.msg.type in
    if type == MessageType.bind_reply
    then if not (is_from l.socket.peer_address (stun_server_addr c.stun_server_address))
      then l
      else on_bind_reply c e l
    else if type == MessageType.client_bind_request
    then on_client_bind_request c e l
    else if type == MessageType.client_bind_response
    then if not (is_from l.socket.peer_address l.socket.target_address)
      then l
      else record l { state = connected; connection_established = true }
    else if type == MessageType.ack
    then l
    else use_attempt l

-- The body of the loop.
unfoldable pub round : Config → Event → Loop → Loop
unfolding on_timeout on_message
round c e l =
    let (socket, result) = wait_receive l.socket e.reception in
    let l' = record l { socket = socket } in
    if is_zero result
    then on_timeout c e l.state l'
    else if is_negative result
    then use_attempt l'
    else on_message c e l'

-- `while (!connection_established && attempts_left)`, over the events that come; `waiting` when
-- they are used up.
pub data Progress : Type 0 where
  waiting : Loop → Progress
  finished : Loop → Progress

unfoldable pub is_over : Loop → Bool
is_over l = l.connection_established || l.attempts_left == 0

unfoldable pub run : Config → Loop → List Event → Progress
run c l [] = if is_over l then finished l else waiting l
run c l (e ∷ es) = let rest = run c (round c e l) es in if is_over l then finished l else rest

-- The `switch` after the loop.
unfoldable pub result_of : State → ConnectResult
result_of connected = connection_successful
result_of waiting_for_stun_reply = connection_failed_no_server_match_in_time
result_of _ = connection_failed

-- What happens before the loop: the result of `sendto`, and what comes as the acknowledgement.
pub record Greeting : Type 0 where
  pub sendto_result : ℤ
  pub reception : Reception

pub data Connecting : Type 0 where
  returned : ConnectResult → List Outgoing → Connecting
  looping : Loop → Connecting

unfoldable pub greet : Config → UdpSocket → Greeting → Connecting
greet c s g =
    let server = stun_server_addr c.stun_server_address in
    let s' = set_target_address server s in
    let out =
      record {
        msg = make_message MessageType.bind_request c.transaction_id zero_message;
        to = server;
      }
      ∷ [] in
    let (s'', result) = wait_receive s' g.reception in
    if not (send g.sendto_result)
    then returned connection_error out
    else if is_minus_one result
    then returned connection_error out
    else if is_zero result
    then returned connection_error out
    else looping (record {
      socket = s'';
      state = waiting_for_stun_reply;
      connection_established = false;
      attempts_left = attempts;
      sent = out;
    })

unfoldable pub finish : Progress → Connecting
unfolding result_of
finish (waiting l) = looping l
finish (finished l) = returned (result_of l.state) l.sent

unfoldable pub proceed : Config → List Event → Connecting → Connecting
proceed c es (returned r out) = returned r out
proceed c es (looping l) = finish (run c l es)

-- `connect`: `looping` while more events are awaited.
unfoldable pub connect : Config → UdpSocket → Greeting → List Event → Connecting
connect c s g es = proceed c es (greet c s g)
