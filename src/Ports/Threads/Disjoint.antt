-- ===== src/Ports/Threads/Disjoint.antt =====
-- Threads that call `assign_next` of port_manager.h at the same time get ports of their own.
use p2p_ps_stun.Prelude.{ℕ, ◌+◌, ◌*◌, ◌^◌, ◌≤◌, ◌<◌, List}
use p2p_ps_stun.Double.{Double}
use p2p_ps_stun.Ports.{u16, take_port}

-- Room for three ranges of each thread above the smallest port, and for one below it.
pub record HasRoom (range min_port first count : ℕ) : Type 0 where
  pub below : count * range ≤ min_port
  pub above : min_port + count * range + count * range + count * range ≤ 2 ^ 16
  pub starts : min_port ≤ first
  pub fits : first < 2 ^ 16

-- The `i`th port after a base, as `assign_next_from_base` takes it without simulated traffic.
abbrev pub port_of : Double → ℕ → ℕ → ℕ → ℕ
port_of f min_port base i =
    (take_port f min_port 0 (record { current_port = u16 (base + i); timestamp_ms = 0 })).0
