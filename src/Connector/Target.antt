-- ===== src/Connector/Target.antt =====
-- `determine_target_port` of p2p_ps_connector.h: where a peer's NAT is expected to map its next
-- sockets.
pub mod Drift
use p2p_ps_stun.Prelude.{ℕ, ◌+◌, ◌-◌, ◌%◌, ◌/◌, ◌^◌, Bool, ◌&&◌, ltb, ◌==◌, if◌then◌else◌}
use p2p_ps_stun.Double.{Double}

abbrev pub window : ℕ
window = 250

abbrev pub u64 : ℕ → ℕ
u64 n = n % 2 ^ 64

-- `first_port + 250 > second_port && first_port - 250 < second_port`, in `int`, which does not wrap
-- here.
unfoldable pub is_sequential : ℕ → ℕ → Bool
is_sequential first_port second_port =
    ltb second_port (first_port + window) && ltb first_port (second_port + window)

-- `uint16_t distance`
unfoldable pub port_distance : ℕ → ℕ → ℕ
port_distance first_port second_port = (second_port + 2 ^ 16 - first_port) % 2 ^ 16

module _ (f : Double) where
  open f use {Number, of_ℕ, add, sub, mul, div, to_u16}

  -- `(float)(timediff_now + 100) / timediff_port_allocation`
  unfoldable pub time_parts : ℕ → ℕ → ℕ → Number
  time_parts t1 t2 time_now =
      let timediff_port_allocation = u64 (u64 (t2 + 2 ^ 64 - t1) + 1) in
      let timediff_now = u64 (time_now + 2 ^ 64 - t2) in
      div (of_ℕ (u64 (timediff_now + 100))) (of_ℕ timediff_port_allocation)

  unfoldable pub sequential_target : ℕ → ℕ → ℕ → Number → ℕ
  sequential_target second_port distance scan_range parts =
      let drift = add (of_ℕ second_port) (mul parts (of_ℕ distance)) in
      if ltb 0 distance
      then to_u16 (add drift (of_ℕ (scan_range / 2)))
      else to_u16 (sub drift (of_ℕ (scan_range / 2)))

  -- 0 if no port can be predicted.
  unfoldable pub determine_target_port : ℕ → ℕ → ℕ → ℕ → ℕ → ℕ → ℕ
  unfolding is_sequential port_distance time_parts sequential_target
  determine_target_port first_port second_port t1 t2 scan_range time_now =
      if first_port == second_port
      then first_port
      else if is_sequential first_port second_port
      then sequential_target second_port (port_distance first_port second_port) scan_range
          (time_parts t1 t2 time_now)
      else 0
