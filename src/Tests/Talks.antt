-- ===== src/Tests/Talks.antt =====
-- Attempts and runs of `connect` in p2p_ps_connector.h.
use p2p_ps_stun.Connector.Scan.Requests.{Asks, open_scan-Requests}
use p2p_ps_stun.Prelude.{
  length, All, ℕ, pos, negsuc, ◌+◌, ◌≡◌, refl, true, false, ◌==◌, List, [], ◌∷◌, replicate, arith,
}
use p2p_ps_stun.Wire.{SockaddrIn, htonl, htons, zero_message, zero_payload, stun_server_addr}
use p2p_ps_stun.Wire.MessageType
use p2p_ps_stun.Ports.{PortManager}
use p2p_ps_stun.Socket.{UdpSocket, new_socket, Reception, Binding, init}
use p2p_ps_stun.Connector.Types.{
  connection_failed_no_server_match_in_time, Event, waiting_for_stun_reply,
}
use p2p_ps_stun.Connector.Target.{determine_target_port}
use p2p_ps_stun.Connector.Scan.{
  ScanCall, Trial, scan_range, open_one, open_scan, try_scan, try_start_ps_connection, try_direct,
}
use p2p_ps_stun.Connector.Scan.Handles.{Settles, try_scan-Settles}
use p2p_ps_stun.Connector.Predicting.{
  Config, Loop, Round, Greeting, Connecting, looping, returned, use_attempt, connect, run,
}
use p2p_ps_stun.Connector.Predicting.Rounds.{attempt}
use p2p_ps_stun.Connector.Predicting.Runs.{Returns}
use p2p_ps_stun.Connector.Predicting.Whole.{
  attempted, missed_peer_is_no_match, predicting_connect_returns,
}
use p2p_ps_stun.Tests.Number.{whole}
use p2p_ps_stun.Tests.Packets.{address, bob, request}

abbrev config : Config
config = record {
  stun_server_address1 = record { ip = 1; port = 3000 };
  stun_server_address2 = record { ip = 1; port = 3001 };
  is_sym_nat = false;
  transaction_id = 7;
}

abbrev server : SockaddrIn
server = record { family = 2; port = htons 3000; addr = htonl 1; pad = 0 }

abbrev socket : UdpSocket
socket = record new_socket { initialized = true; socket_handle = pos 5 }

abbrev ports : PortManager
ports = record {
  port_res_port_map = (20000, record { current_port = 20001; timestamp_ms = 1000 }) ∷ [];
  current_port = 20000;
  simulated_normal_allocs_per_second = 0;
  reserved_port_range_per_alloc = 100;
  min_port = 10000;
}

abbrev event : Reception → Event
event r = record { reception = r; sendto_result = pos 60; stack = zero_message }

abbrev silence : Reception
silence = record { select_result = pos 0; result = pos 0; msg = zero_message; sender = server }

abbrev binding : Binding whole
binding = record { now = 10; draw = 0; result = pos 0 }

abbrev scan_calls : ℕ → ScanCall whole
scan_calls i = record { socket_result = pos (10 + i); binding = binding; event = event silence }

-- A trial in which the third socket hears the peer.
abbrev trial : Trial whole
trial = record {
  time_now = 5000;
  calls = scan_calls;
  event = event silence;
  select_result = pos 1;
  is_set = λ h. elim h [ pos n ↦ n == 12 | negsuc n ↦ false ];
}

try_scan-Settles_example :
    Settles trial.is_set socket
      (open_scan whole 7 20000 (address bob 5000) ports scan_calls 0 scan_range).sockets
      (try_scan whole 7 20000 (address bob 5000) socket ports trial)
try_scan-Settles_example = try_scan-Settles whole 7 20000 (address bob 5000) socket ports trial

open_scan-Requests_example :
    (length (open_scan whole 7 20000 (address bob 5000) ports scan_calls 0 3).sent ≡ 3)
    × All
        (Asks 7 (address bob 5000))
        (open_scan whole 7 20000 (address bob 5000) ports scan_calls 0 3).sent
unfolding open_scan open_one init
open_scan-Requests_example =
    open_scan-Requests whole 7 20000 (address bob 5000) ports scan_calls 0 3 (omega arith) refl

abbrev quiet_round : Round whole
quiet_round = record { event = event silence; trial = trial }

-- The server's reply: both sightings of bob at one port, so that this port is the target.
abbrev reply_round : Round whole
reply_round = record quiet_round {
  event = event (record {
    select_result = pos 1;
    result = pos 60;
    msg = record {
      type = MessageType.ps_bind_reply;
      message = record zero_payload { addr_one = address bob 5000; addr_two = address bob 5000 };
    };
    sender = server;
  });
}

abbrev waiting_loop : Loop
waiting_loop = record {
  socket = socket;
  socket2 = new_socket;
  ports = ports;
  base_port = 20000;
  state = waiting_for_stun_reply;
  connection_established = false;
  attempts_left = 5;
  sent = [];
  closed = [];
}

missed_peer_is_no_match_example :
    let a = attempt whole whole config reply_round waiting_loop in
    let l' = use_attempt (attempted waiting_loop a) in
    (run whole whole config waiting_loop (reply_round ∷ quiet_round ∷ [])
      ≡ returned connection_failed_no_server_match_in_time l')
    × (l'.sent ≡ a.sent)
unfolding stun_server_addr htons htonl determine_target_port try_start_ps_connection try_direct
missed_peer_is_no_match_example =
    missed_peer_is_no_match whole whole config reply_round quiet_round waiting_loop refl refl
      (omega arith) (refl, refl) refl refl refl refl

abbrev greeting : Greeting whole
greeting = record {
  binding_1 = binding;
  sendto_1 = pos 60;
  reception_1 = record {
    select_result = pos 1;
    result = pos 60;
    msg = request MessageType.ack 7;
    sender = server;
  };
  socket_result_2 = pos 6;
  binding_2 = binding;
  sendto_2 = pos 60;
  reception_2 = record {
    select_result = pos 1;
    result = pos 60;
    msg = request MessageType.ack 7;
    sender = server;
  };
}

abbrev quiet : List (Round whole)
quiet = replicate 5 quiet_round

predicting_connect_returns_example :
    Returns (connect whole whole config socket ports greeting (reply_round ∷ quiet))
predicting_connect_returns_example =
    predicting_connect_returns whole whole config socket ports greeting (reply_round ∷ []) quiet
      (ground arith) (omega arith)

-- A response from bob, whom the reply made the socket's target.
abbrev response_round : Round whole
response_round = record quiet_round {
  event = event (record {
    select_result = pos 1;
    result = pos 60;
    msg = request MessageType.client_bind_response 7;
    sender = address bob 5000;
  });
}

abbrev talk : List (Round whole)
talk = quiet_round ∷ reply_round ∷ response_round ∷ []

abbrev last : Connecting → Loop
last (returned q l) = l
last (looping l) = l

abbrev talked : Loop
talked = last (connect whole whole config socket ports greeting talk)

-- Messages with the id 305419896, for a client that has the id 7.
abbrev own_id : ℕ
own_id = 7

abbrev other_id : ℕ
other_id = 305419896
