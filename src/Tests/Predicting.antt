-- ===== src/Tests/Predicting.antt =====
-- The server and two clients that predict ports, each at one address.
use p2p_ps_stun.Prelude.{Bool, true, false, ◌≡◌, ◌∙◌, refl, ap, arith}
use p2p_ps_stun.Wire.{SockaddrIn, htons, htonl, stun_server_addr}
use p2p_ps_stun.Socket.{new_socket}
use p2p_ps_stun.Connector.Predicting.{Config}
use p2p_ps_stun.Network.Safety.{first_side}
use p2p_ps_stun.Network.Predicting.{Host, World, IsWorld}
use p2p_ps_stun.Network.Predicting.Safety.{predicting_success_means_peer}
use p2p_ps_stun.Network.Predicting.Course.{IsAnswer, IsMapped}
use p2p_ps_stun.Network.Predicting.Introducing.{IsMeeting, Times, IsPrompt}
use p2p_ps_stun.Network.Predicting.Connecting.{Connects, IsDirect, predicting_clients_can_connect}
use p2p_ps_stun.Tests.Number.{whole}
use p2p_ps_stun.Tests.Packets.{address, alice, bob}
use p2p_ps_stun.Tests.Aiming.{ports}

-- A NAT that maps its client to one address for every destination and lets answers in only.
abbrev cone : SockaddrIn → Host
cone x = record {
  host = x.addr;
  Shows = λ y. y ≡ x;
  Admits = λ sent p. IsAnswer x sent p;
  from_host = λ y e. ap (λ a. a.addr) e;
  to_host = λ sent p v. ap (λ a. a.addr) v.to;
}

cone-IsMapped : (x : SockaddrIn) → IsMapped (cone x) x
cone-IsMapped x = record { shown = refl; admitted = λ sent p v. v }

-- `is_sym_nat` is whether the client is behind a symmetric NAT.
abbrev config_for : Bool → Config
config_for is_sym_nat = record {
  stun_server_address1 = record { ip = 1; port = 3000 };
  stun_server_address2 = record { ip = 2; port = 3000 };
  is_sym_nat = is_sym_nat;
  transaction_id = 7;
}

abbrev world : World
world = record {
  a = cone (address alice 4000);
  b = cone (address bob 5000);
  server1 = htonl 1;
  server2 = htonl 2;
  a_config = config_for false;
  b_config = config_for false;
}

world-IsWorld : IsWorld world
world-IsWorld = omega arith

meeting : IsMeeting world (address alice 4000) (address alice 4000) (address bob 5000)
unfolding stun_server_addr htons
meeting = record {
  world = world-IsWorld;
  at_1 = cone-IsMapped (address alice 4000);
  at_2 = cone-IsMapped (address alice 4000);
  at_y = cone-IsMapped (address bob 5000);
  server_1 = refl;
  server_2 = refl;
  same_1 = refl;
  same_2 = refl;
  same_id = refl;
  small_id = omega arith;
  direct = refl;
  port_known = omega arith;
  port_small = omega arith;
}

-- The two requests of each client are a second apart.
abbrev times : Times
times = record { a1 = 1000; a2 = 2000; b1 = 1400; b2 = 2400 }

times-IsPrompt : IsPrompt times
times-IsPrompt = omega arith

alice-IsDirect : IsDirect world (address alice 4000)
unfolding htons
alice-IsDirect = record { direct = refl; port_known = omega arith; port_small = omega arith }

abbrev connects : Connects whole whole world (address alice 4000) (address bob 5000)
connects =
    predicting_clients_can_connect whole whole world (address alice 4000) (address bob 5000) meeting
      alice-IsDirect times times-IsPrompt new_socket new_socket ports ports

predicting_success_means_peer_example : connects.loop_a.socket.target_address.addr ≡ bob
predicting_success_means_peer_example =
    predicting_success_means_peer whole whole world connects.end first_side connects.loop_a
      world-IsWorld connects.reached connects.is_a connects.a_up.up

-- A NAT that maps each socket of alice's to another port, and lets answers in only.
abbrev symmetric : Host
symmetric = record {
  host = alice;
  Shows = λ y. y.addr ≡ alice;
  Admits = λ sent p. (x : SockaddrIn) × (x.addr ≡ alice) × IsAnswer x sent p;
  from_host = λ y e. e;
  to_host = λ sent p v. ap (λ a. a.addr) v.2.to ∙ v.1;
}

abbrev scanning_world : World
scanning_world = record world { a = symmetric; a_config = config_for true }
