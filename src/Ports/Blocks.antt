-- ===== src/Ports/Blocks.antt =====
-- Two base ports in a row, and the scans from them (port_manager.h).
use p2p_ps_stun.Prelude.{ℕ, zero, suc, ◌+◌, ◌^◌, ◌≤◌, ◌<◌, ◌≡◌, List, length, All, arith}
use p2p_ps_stun.Double.{Double}
use p2p_ps_stun.Ports.{PortManager, assign_next}
use p2p_ps_stun.Ports.Bases.{IsValid, assign_next_base}
use p2p_ps_stun.Ports.Scan.{scan, ports_from, scan-ports_from}

-- What the calls for a base leave alone.
record Frame (p q : PortManager) : Type 0 where
  current : q.current_port ≡ p.current_port
  least : q.min_port ≡ p.min_port
  range : q.reserved_port_range_per_alloc ≡ p.reserved_port_range_per_alloc
  quiet : q.simulated_normal_allocs_per_second ≡ p.simulated_normal_allocs_per_second

ports_from-bounds :
    (low high first n : ℕ)
    → low ≤ first
    → first + n ≤ high
    → All (λ q. (low ≤ q) × (q < high)) (ports_from first n)
ports_from-bounds low high first zero h k = tt
ports_from-bounds low high first (suc n) h k = (
  (omega arith, omega arith),
  ports_from-bounds low high (first + 1) n (omega arith) (omega arith),
)

assign_next-next :
    (p : PortManager) (now : ℕ)
    → (assign_next p now).1 + p.reserved_port_range_per_alloc < 2 ^ 16
    → ((assign_next p now).0.current_port ≡ (assign_next p now).1 + p.reserved_port_range_per_alloc)
      × ((assign_next p now).0.min_port ≡ p.min_port)
      × ((assign_next p now).0.reserved_port_range_per_alloc ≡ p.reserved_port_range_per_alloc)
      × ((assign_next p now).0.simulated_normal_allocs_per_second
          ≡ p.simulated_normal_allocs_per_second)
unfolding assign_next
assign_next-next p now h = ground arith

module _ (f : Double) where
  open f use {Number}

  -- A scan from a new base of a port manager whose numbers fit, with fewer calls than the reserved
  -- range, that range below 2^16 and no simulated traffic, takes
  -- the ports after the base one by one, all of them below the end of the range.
  pub scan_in_block :
      (p : PortManager) (now : ℕ) (calls : List (ℕ × Number))
      → IsValid p
      → p.simulated_normal_allocs_per_second ≡ 0
      → length calls < p.reserved_port_range_per_alloc
      → (assign_next p now).1 + p.reserved_port_range_per_alloc < 2 ^ 16
      → let b = (assign_next p now).1 in
        ((scan f (assign_next p now).0 b calls).1 ≡ ports_from (b + 1) (length calls))
        × All
            (λ q. (b + 1 ≤ q) × (q < b + p.reserved_port_range_per_alloc))
            (scan f (assign_next p now).0 b calls).1
  scan_in_block p now calls v quiet few fits =
      let (least, small, (e, found, next), v') = assign_next_base p now v in
      let (current, same_least, same_range, same_quiet) = assign_next-next p now fits in
      let b = (assign_next p now).1 in
      let start : e.current_port ≡ b + 1 = omega arith in
      let run =
        scan-ports_from f (assign_next p now).0 b calls e found (omega arith) (omega arith)
          (omega arith) in
      let shape = rw start at run in
      (
        shape,
        rw shape (
            ports_from-bounds (b + 1) (b + p.reserved_port_range_per_alloc) (b + 1) (length calls)
              (omega arith) (omega arith)),
      )
