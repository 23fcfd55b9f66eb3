-- ===== src/Tests/Networking.antt =====
-- The server and two clients that connect.
use p2p_ps_stun.Prelude.{◌≡◌, refl, arith}
use p2p_ps_stun.Wire.{htons, htonl, stun_server_addr}
use p2p_ps_stun.Socket.{new_socket}
use p2p_ps_stun.Connector.Basic.{Config}
use p2p_ps_stun.Network.{World, IsWorld}
use p2p_ps_stun.Network.Safety.{first_side, success_means_peer}
use p2p_ps_stun.Network.Connecting.{Connects, both_can_connect}
use p2p_ps_stun.Tests.Packets.{address, alice, bob}

abbrev config : Config
config = record { stun_server_address = record { ip = 1; port = 3000 }; transaction_id = 7 }

abbrev world : World
world = record {
  a = address alice 4000;
  b = address bob 5000;
  server = record { family = 2; port = htons 3000; addr = htonl 1; pad = 0 };
  a_config = config;
  b_config = config;
}

world-IsWorld : IsWorld world
unfolding stun_server_addr htons htonl
world-IsWorld = record {
  a_server = refl;
  b_server = refl;
  apart = refl;
  a_apart = refl;
  b_apart = refl;
}

both_can_connect_example : Connects world
both_can_connect_example =
    both_can_connect world new_socket new_socket world-IsWorld refl (omega arith)

abbrev connects : Connects world
connects = both_can_connect world new_socket new_socket world-IsWorld refl (omega arith)

success_means_peer_example : connects.loop_a.socket.target_address ≡ address bob 5000
success_means_peer_example =
    success_means_peer world connects.end first_side connects.loop_a world-IsWorld connects.reached
      connects.is_a connects.a_up.up
