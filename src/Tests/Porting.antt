-- ===== src/Tests/Porting.antt =====
-- Ports of port_manager.h, addresses of udp_socket.h and ids of messages.h.
use p2p_ps_stun.Prelude.{ℕ, ◌≡◌, ◌⊎◌, refl, true, false, List, [], ◌∷◌}
use p2p_ps_stun.Wire.{no_address}
use p2p_ps_stun.Ports.{PortManager}
use p2p_ps_stun.Socket.{new_socket, Interface, get_own_address}
use p2p_ps_stun.Socket.OwnAddress.{FirstUsable, get_own_address-FirstUsable}
use p2p_ps_stun.Tests.Packets.{address, alice}

abbrev fresh : PortManager
fresh = record {
  port_res_port_map = [];
  current_port = 20000;
  simulated_normal_allocs_per_second = 0;
  reserved_port_range_per_alloc = 100;
  min_port = 10000;
}

abbrev calls : List (ℕ × ℕ)
calls = (10, 0) ∷ (11, 0) ∷ (12, 0) ∷ []

abbrev interfaces : List Interface
interfaces =
    record { has_address = true; is_running = true; is_loopback = true; address = address 127 0 }
    ∷ record {
      has_address = true;
      is_running = true;
      is_loopback = false;
      address = address alice 0;
    }
    ∷ []

get_own_address-FirstUsable_example :
    FirstUsable interfaces no_address (get_own_address interfaces new_socket).1
    × (((get_own_address interfaces new_socket).1.addr ≡ 0)
        ⊎ ((get_own_address [] (get_own_address interfaces new_socket).0).1
            ≡ (get_own_address interfaces new_socket).1))
get_own_address-FirstUsable_example = get_own_address-FirstUsable interfaces [] new_socket refl
