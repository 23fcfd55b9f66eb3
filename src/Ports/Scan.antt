-- ===== src/Ports/Scan.antt =====
-- The ports that a scan takes from one base by `assign_next_from_base` (port_manager.h).
use p2p_ps_stun.Prelude.{
  ℕ, zero, suc, ◌+◌, ◌^◌, ◌≤◌, ◌<◌, ◌≡◌, refl, ap, some, List, [], ◌∷◌, find, set, find-set_self,
  length, arith,
}
use p2p_ps_stun.Double.{Double}
use p2p_ps_stun.Ports.{PortData, PortManager, take_port, next_offset, assign_next_from_base}

module _ (f : Double) where
  open f use {Number}

  -- One call for a known base, with what it leaves for the next.
  from_base :
      (p : PortManager) (base now : ℕ) (draw : Number) (e : PortData)
      → find base p.port_res_port_map ≡ some e
      → let t =
          take_port f p.min_port (next_offset f p e now draw).0 (next_offset f p e now draw).1 in
        assign_next_from_base f p base now draw
        ≡ (record p { port_res_port_map = set base t.1 p.port_res_port_map }, t.0)
  unfolding assign_next_from_base
  from_base p base now draw e h = rw (h, assign_next_from_base)

  -- A port from a known base lies between the smallest port and the largest 16-bit number, if the
  -- smallest port is at most 2^15, with or without simulated traffic.
  pub from_base_range :
      (p : PortManager) (base now : ℕ) (draw : Number) (e : PortData)
      → find base p.port_res_port_map ≡ some e
      → p.min_port ≤ 2 ^ 15
      → (p.min_port ≤ (assign_next_from_base f p base now draw).1)
        × ((assign_next_from_base f p base now draw).1 < 2 ^ 16)
  unfolding take_port
  from_base_range p base now draw e h small = rw (from_base p base now draw e h) (ground arith)

  -- The calls of a scan, one for each reading of the clock and draw.
  unfoldable pub scan : PortManager → ℕ → List (ℕ × Number) → PortManager × List ℕ
  scan p base [] = (p, [])
  scan p base ((now, draw) ∷ calls) =
      let (p', port) = assign_next_from_base f p base now draw in
      let (p'', ports) = scan p' base calls in (p'', port ∷ ports)

-- `n` consecutive ports.
abbrev pub ports_from : ℕ → ℕ → List ℕ
ports_from first zero = []
ports_from first (suc n) = first ∷ ports_from (first + 1) n

module _ (f : Double) where
  open f use {Number}

  -- With no simulated traffic a call takes the current port of the base and moves it on by one.
  quiet_step :
      (p : PortManager) (base now : ℕ) (draw : Number) (e : PortData)
      → find base p.port_res_port_map ≡ some e
      → p.simulated_normal_allocs_per_second ≡ 0
      → p.min_port ≤ e.current_port
      → e.current_port + 1 < 2 ^ 16
      → assign_next_from_base f p base now draw ≡ (
        record p {
          port_res_port_map =
              set base (record e { current_port = e.current_port + 1 }) p.port_res_port_map;
        },
        e.current_port,
      )
  unfolding next_offset take_port
  quiet_step p base now draw e h quiet low high =
      rw (from_base f p base now draw e h) (ground arith)

  -- With no simulated traffic, a scan from a known base takes consecutive ports from the base's
  -- current port on, as long as these end below 2^16.
  pub scan-ports_from :
      (p : PortManager) (base : ℕ) (calls : List (ℕ × Number)) (e : PortData)
      → find base p.port_res_port_map ≡ some e
      → p.simulated_normal_allocs_per_second ≡ 0
      → p.min_port ≤ e.current_port
      → e.current_port + length calls < 2 ^ 16
      → (scan f p base calls).1 ≡ ports_from e.current_port (length calls)
  unfolding scan
  scan-ports_from p base [] e h quiet low high = refl
  scan-ports_from p base ((now, draw) ∷ calls) e h quiet low high =
      let e' : PortData = record e { current_port = e.current_port + 1 } in
      let m = set base e' p.port_res_port_map in
      let moved = find-set_self base e' e p.port_res_port_map h in
      rw (quiet_step p base now draw e h quiet low (omega arith)) (
        ap (λ l. e.current_port ∷ l)
          (scan-ports_from (record p { port_res_port_map = m }) base calls e' moved quiet
            (omega arith) (omega arith)))
