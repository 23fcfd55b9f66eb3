-- ===== src/Connector/Predicting.antt =====
-- `p2p_ps_connector_t`, P2P_PS/sources/client/src/connection/p2p_ps_connector.h: hole punching with
-- a prediction of the peer's ports.
pub mod Rounds
pub mod Runs
pub mod Results
pub mod Whole
use p2p_ps_stun.Prelude.{
  ℕ, ℤ, pos, is_minus_one, is_negative, is_zero, Bool, true, false, not, ◌&&◌, ◌||◌, List, [], ◌∷◌,
  ◌++◌, ◌-◌, ◌==◌, if◌then◌else◌,
}
use p2p_ps_stun.Wire.{SockaddrIn, Message, Address, zero_message, stun_server_addr}
use p2p_ps_stun.Wire.MessageType
use p2p_ps_stun.Double.{Double}
use p2p_ps_stun.Ports.{PortManager}
use p2p_ps_stun.Socket.{
  UdpSocket, new_socket, closes, init, Reception, send, wait_receive, set_target_address, Binding,
  bind_by_portman,
}
use p2p_ps_stun.Connector.Types.{
  ConnectResult, connection_failed_no_server_match_in_time, connection_successful,
  connection_failed, connection_error, State, waiting_for_stun_reply, connected, Outgoing, Event,
  make_message, reply_to_bind_request,
}
use p2p_ps_stun.Connector.Scan.{Attempt, Trial, try_start_ps_connection}

-- The members that the caller sets.
pub record Config : Type 0 where
  pub stun_server_address1 : Address
  pub stun_server_address2 : Address
  pub is_sym_nat : Bool
  pub transaction_id : ℕ

-- The variables of `connect`, the port manager, and what has been sent and closed so far. `socket2`
-- is the helper socket, used behind a symmetric NAT.
pub record Loop : Type 0 where
  pub socket : UdpSocket
  pub socket2 : UdpSocket
  pub ports : PortManager
  pub base_port : ℕ
  pub state : State
  pub connection_established : Bool
  pub attempts_left : ℕ
  pub sent : List Outgoing
  pub closed : List ℤ

abbrev pub attempts : ℕ
attempts = 5

abbrev pub attempts_after_reply : ℕ
attempts_after_reply = 2

abbrev pub use_attempt : Loop → Loop
use_attempt l = record l { attempts_left = l.attempts_left - 1 }

-- One round: what is received, and what a connection attempt gets from outside.
pub record Round (d : Double) : Type 0 where
  pub event : Event
  pub trial : Trial d

-- After a round `connect` goes on or returns at once.
pub data After : Type 0 where
  goes_on : Loop → After
  returns : ConnectResult → Loop → After

unfoldable pub on_client_bind_request : Config → Event → Loop → Loop
on_client_bind_request c e l =
    let (socket, success, out) =
      reply_to_bind_request c.transaction_id l.socket e.reception.msg l.socket.peer_address e in
    let l' = record l { socket = socket; sent = l.sent ++ out } in
    if success
    then record l' { connection_established = true; state = connected }
    else use_attempt l'

-- What follows a connection attempt.
unfoldable pub after_attempt : Loop → Attempt → After
after_attempt l a =
    let l' = record l {
      socket = a.socket;
      ports = a.ports;
      sent = l.sent ++ a.sent;
      closed = l.closed ++ a.closed;
    } in
    if is_minus_one a.success
    then returns connection_failed l'
    else if is_zero a.success
    then returns connection_failed l'
    else goes_on (use_attempt (record l' { attempts_left = attempts_after_reply }))

module _ (f d : Double) where
  -- `ps_bind_reply`, from a host that one of the server's two addresses names.
  unfoldable pub on_ps_bind_reply : Config → Round d → Loop → After
  unfolding after_attempt
  on_ps_bind_reply c r l = after_attempt l (
      try_start_ps_connection d f c.is_sym_nat c.transaction_id l.base_port
        (r.event.reception.msg.message) l.socket l.ports r.trial)

  -- The `switch` over the type of the message. `l.socket.peer_address` is its sender.
  unfoldable pub on_message : Config → Round d → Loop → After
  unfolding on_client_bind_request on_ps_bind_reply
  on_message c r l =
      let e = r.event in
      let type = e.reception.msg.type in
      let peer_addr = l.socket.peer_address in
      if type == MessageType.ps_bind_reply
      then if not (peer_addr.addr == (stun_server_addr c.stun_server_address2).addr)
          && not (peer_addr.addr == (stun_server_addr c.stun_server_address1).addr)
        then goes_on l
        else on_ps_bind_reply c r l
      else if type == MessageType.client_bind_request
      then goes_on (on_client_bind_request c e l)
      else if type == MessageType.client_bind_response
      then if not (peer_addr.addr == l.socket.target_address.addr)
          || not (peer_addr.port == l.socket.target_address.port)
        then goes_on l
        else goes_on (record l { state = connected; connection_established = true })
      else if type == MessageType.ack
      then goes_on l
      else goes_on (use_attempt l)

  -- The body of the loop.
  unfoldable pub round : Config → Round d → Loop → After
  unfolding on_message
  round c r l =
      let (socket, result) = wait_receive l.socket r.event.reception in
      let l' = record l { socket = socket } in
      if is_zero result
      then goes_on (use_attempt l')
      else if is_negative result
      then goes_on (use_attempt l')
      else on_message c r l'

unfoldable pub is_over : Loop → Bool
is_over l = l.connection_established || l.attempts_left == 0

-- The `switch` after the loop.
unfoldable pub result_of : State → ConnectResult
result_of connected = connection_successful
result_of waiting_for_stun_reply = connection_failed_no_server_match_in_time
result_of _ = connection_failed

-- `connect` has returned, or waits for the next round.
pub data Connecting : Type 0 where
  returned : ConnectResult → Loop → Connecting
  looping : Loop → Connecting

module _ (f d : Double) where
  -- `while (!connection_established && attempts_left)`, and what follows it.
  unfoldable pub run : Config → Loop → List (Round d) → Connecting
  unfolding result_of
  run c l [] = if is_over l then returned (result_of l.state) l else looping l
  run c l (r ∷ rs) =
      let rest = elim (round f d c r l) as (λ _. Connecting) [
        | goes_on l' ↦ run c l' rs
        | returns q l' ↦ returned q l'
      ] in
      if is_over l then returned (result_of l.state) l else rest

-- What comes before the loop: the calls for the first request, and those for the second.
pub record Greeting (d : Double) : Type 0 where
  pub binding_1 : Binding d
  pub sendto_1 : ℤ
  pub reception_1 : Reception
  pub socket_result_2 : ℤ
  pub binding_2 : Binding d
  pub sendto_2 : ℤ
  pub reception_2 : Reception

-- A request is sent and acknowledged, or `connect` returns an error.
unfoldable pub exchange : ℤ → Reception → UdpSocket → UdpSocket × Bool
exchange sendto_result r s =
    if not (send sendto_result)
    then (s, false)
    else let (s', result) = wait_receive s r in
      (s', if is_minus_one result then false else if is_zero result then false else true)

-- The request to a server, over what `message` holds.
abbrev pub request : Config → Address → Message → Outgoing
request c a m = record {
  msg = make_message MessageType.ps_bind_request c.transaction_id m;
  to = stun_server_addr a;
}

module _ (d : Double) where
  unfoldable pub greet_first : Config → UdpSocket → PortManager → Greeting d → Connecting
  greet_first c s ports g =
      let (ports', base_port) = bind_by_portman d s ports 0 g.binding_1 in
      let s' = set_target_address (stun_server_addr c.stun_server_address1) s in
      let (s'', acked) = exchange g.sendto_1 g.reception_1 s' in
      let l : Loop = record {
        socket = s'';
        socket2 = new_socket;
        ports = ports';
        base_port = base_port;
        state = State.disconnected;
        connection_established = false;
        attempts_left = 0;
        sent = request c c.stun_server_address1 zero_message ∷ [];
        closed = [];
      } in
      if acked then looping l else returned connection_error l

  -- The loop begins once the second request is acknowledged.
  abbrev pub begin : Bool → Loop → Connecting
  begin acked l =
      if acked
      then looping (record l { state = waiting_for_stun_reply; attempts_left = attempts })
      else returned connection_error l

  -- Behind a symmetric NAT by the helper socket, bound next to the base port; otherwise by the same
  -- socket. `message` still holds the acknowledgement of the first request.
  unfoldable pub greet_second : Config → Greeting d → Loop → Connecting
  greet_second c g l =
      let server = stun_server_addr c.stun_server_address2 in
      let out = l.sent ++ request c c.stun_server_address2 (g.reception_1.msg) ∷ [] in
      let (h, up) = init g.socket_result_2 l.socket2 in
      let (ports', port) = bind_by_portman d h l.ports l.base_port g.binding_2 in
      let (h', acked) = exchange g.sendto_2 g.reception_2 (set_target_address server h) in
      let (s', same_acked) =
        exchange g.sendto_2 g.reception_2 (set_target_address server l.socket) in
      if c.is_sym_nat
      then if up
        then begin acked (record l { socket2 = h'; ports = ports'; sent = out })
        else returned connection_error (record l { socket2 = h })
      else begin same_acked (record l { socket = s'; sent = out })

  unfoldable pub then_second : Config → Greeting d → Connecting → Connecting
  then_second c g (returned r l) = returned r l
  then_second c g (looping l) = greet_second c g l

  unfoldable pub greet : Config → UdpSocket → PortManager → Greeting d → Connecting
  greet c s ports g = then_second c g (greet_first c s ports g)

-- The destructor of the helper socket, when `connect` returns.
unfoldable pub close_helper : Connecting → Connecting
close_helper (returned r l) = returned r (record l { closed = l.closed ++ closes l.socket2 })
close_helper (looping l) = looping l

module _ (f d : Double) where
  unfoldable pub proceed : Config → List (Round d) → Connecting → Connecting
  proceed c rs (returned r l) = returned r l
  proceed c rs (looping l) = run f d c l rs

  unfoldable pub connect :
      Config → UdpSocket → PortManager → Greeting d → List (Round d) → Connecting
  unfolding close_helper
  connect c s ports g rs = close_helper (proceed c rs (greet d c s ports g))
