-- ===== src/Network/Predicting/Schedule.antt =====
-- The greeting of a client of p2p_ps_connector.h, and what its rounds get from outside, when all that
-- is sent arrives.
use p2p_ps_stun.Prelude.{ℕ, pos, ◌≡◌, refl, false, [], ◌∷◌}
use p2p_ps_stun.Wire.{zero_message, stun_server_addr}
use p2p_ps_stun.Double.{Double}
use p2p_ps_stun.Ports.{PortManager}
use p2p_ps_stun.Socket.{
  UdpSocket, new_socket, Binding, bind_by_portman, wait_receive, send, set_target_address,
}
use p2p_ps_stun.Connector.Types.{State, waiting_for_stun_reply}
use p2p_ps_stun.Connector.Scan.{Trial}
use p2p_ps_stun.Connector.Predicting.{
  Config, Loop, Round, Greeting, attempts, looping, exchange, request, greet_first, greet_second,
}
use p2p_ps_stun.Network.{Packet}
use p2p_ps_stun.Network.Schedule.{heard, told}

module _ (d : Double) where
  abbrev pub binding : Binding d
  binding = record { now = 0; draw = d.of_ℕ 0; result = pos 0 }

  -- Both requests are acknowledged.
  abbrev pub acks : Packet → Packet → Greeting d
  acks p q = record {
    binding_1 = binding;
    sendto_1 = pos 60;
    reception_1 = heard p;
    socket_result_2 = pos 4;
    binding_2 = binding;
    sendto_2 = pos 60;
    reception_2 = heard q;
  }

  -- The loop after the first acknowledgement, and after the second.
  abbrev pub asked : Config → UdpSocket → PortManager → Packet → Loop
  asked c s ports p = record {
    socket = record s {
      target_address = stun_server_addr c.stun_server_address1;
      peer_address = p.from;
    };
    socket2 = new_socket;
    ports = (bind_by_portman d s ports 0 binding).0;
    base_port = (bind_by_portman d s ports 0 binding).1;
    state = State.disconnected;
    connection_established = false;
    attempts_left = 0;
    sent = request c c.stun_server_address1 zero_message ∷ [];
    closed = [];
  }

  abbrev pub opened : Config → UdpSocket → PortManager → Packet → Packet → Loop
  opened c s ports p q = record (asked c s ports p) {
    socket = record s {
      target_address = stun_server_addr c.stun_server_address2;
      peer_address = q.from;
    };
    state = waiting_for_stun_reply;
    attempts_left = attempts;
    sent =
        request c c.stun_server_address1 zero_message ∷ request c c.stun_server_address2 p.msg ∷ [];
  }

  pub greet_first-asked :
      (c : Config) (s : UdpSocket) (ports : PortManager) (p q : Packet)
      → greet_first d c s ports (acks p q) ≡ looping (asked c s ports p)
  unfolding greet_first exchange wait_receive send set_target_address
  greet_first-asked c s ports p q = refl

  pub greet_second-opened :
      (c : Config) (s : UdpSocket) (ports : PortManager) (p q : Packet)
      → c.is_sym_nat ≡ false
      → greet_second d c (acks p q) (asked c s ports p) ≡ looping (opened c s ports p q)
  unfolding greet_second exchange wait_receive send set_target_address
  greet_second-opened c s ports p q direct = rw direct refl

  -- A round at the time `now` in which the packet arrives.
  abbrev pub trial : ℕ → Packet → Trial d
  trial now p = record {
    time_now = now;
    calls = λ i. record { socket_result = pos i; binding = binding; event = told p };
    event = told p;
    select_result = pos 1;
    is_set = λ _. false;
  }

  abbrev pub turn : ℕ → Packet → Round d
  turn now p = record { event = told p; trial = trial now p }
