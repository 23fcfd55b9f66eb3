-- ===== src/Tests/Aiming.antt =====
-- Alice, behind a symmetric NAT, scans for bob after the server has introduced them.
use p2p_ps_stun.Prelude.{
  ℕ, pos, negsuc, ◌+◌, ◌≡◌, inl, refl, true, false, ◌==◌, find, List, [], ◌∷◌, length, All, arith,
}
use p2p_ps_stun.Wire.{zero_message, htons, ntohs, htonl, transaction_id, set_transaction_id}
use p2p_ps_stun.Server.Types.{Sent, new_server}
use p2p_ps_stun.Server.Loop.{on_message, serve}
use p2p_ps_stun.Server.Prediction.{ps_request_id}
use p2p_ps_stun.Server.History.Isolation.{ack_to}
use p2p_ps_stun.Server.History.Matching.{Meeting}
use p2p_ps_stun.Ports.{PortManager}
use p2p_ps_stun.Socket.{new_socket, init}
use p2p_ps_stun.Connector.Scan.{ScanCall, Trial, open_scan, open_one, try_start_ps_connection}
use p2p_ps_stun.Connector.Scan.Requests.{Asks}
use p2p_ps_stun.Connector.Target.Drift.{Elapsed}
use p2p_ps_stun.Network.Aim.{IsRising, expected, introduced_client_scans_peer}
use p2p_ps_stun.Tests.Packets.{address, alice, a1, a2, b1, b2, other}
use p2p_ps_stun.Tests.Number.{whole, whole-IsExact}

abbrev pub ports : PortManager
ports = record {
  port_res_port_map = [];
  current_port = 20050;
  simulated_normal_allocs_per_second = 0;
  reserved_port_range_per_alloc = 50;
  min_port = 5000;
}

abbrev scan_calls : ℕ → ScanCall whole
scan_calls i = record {
  socket_result = pos (10 + i);
  binding = record { now = 10; draw = 0; result = pos 0 };
  event = record {
    reception = record {
      select_result = pos 0;
      result = pos 0;
      msg = zero_message;
      sender = address alice 4000;
    };
    sendto_result = pos 60;
    stack = zero_message;
  };
}

-- Bob's requests came at 3000 and 4001; a little later the scan starts.
abbrev trial : Trial whole
trial = record {
  time_now = 4903;
  calls = scan_calls;
  event = (scan_calls 0).event;
  select_result = pos 1;
  is_set = λ h. elim h [ pos n ↦ n == 12 | negsuc n ↦ false ];
}

introduced : Meeting a1 a2 b1 b2
unfolding htonl htons set_transaction_id
introduced = omega arith

one_interval : Elapsed 1 3000 4001 4903
one_interval = record {
  ordered = omega arith;
  past = omega arith;
  small = omega arith;
  multiple = omega arith;
  exact = omega arith;
}

bob_rises : IsRising 1 (ntohs (b1.peer_addr.port)) (ntohs (b2.peer_addr.port))
unfolding ntohs htons
bob_rises = record { up = omega arith; near = omega arith; fits = omega arith }

introduced_client_scans_peer_example :
    (m : Sent) × (others : List Sent) × ((on_message
        (serve new_server (a1 ∷ b1 ∷ other ∷ a2 ∷ [])).0
        b2).1
      ≡ ack_to b2 ∷ m ∷ others)
    × (m.to ≡ address alice 4000)
    × (let a =
          try_start_ps_connection whole whole true 7 20000 (m.msg.message) new_socket ports trial in
        (length a.sent ≡ 50) × All (Asks 7 (expected 1 b1.peer_addr b2.peer_addr)) a.sent)
unfolding ps_request_id transaction_id set_transaction_id htonl htons find open_scan open_one init
introduced_client_scans_peer_example =
    introduced_client_scans_peer 7 new_server (a1 ∷ b1 ∷ other ∷ a2 ∷ []) a1 a2 b1 b2 whole whole 7
      20000 1 new_socket ports trial introduced refl (inl refl) refl whole-IsExact one_interval
      bob_rises (omega arith) refl
