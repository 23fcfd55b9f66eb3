-- ===== src/Ports/Bases.antt =====
-- The base ports that `assign_next` gives out (port_manager.h).
use native.Mathlib.Nat.{mod-lt}
use p2p_ps_stun.Prelude.{
  ℕ, ◌+◌, ◌-◌, ◌^◌, ◌≤◌, ◌<◌, ◌≡◌, inl, inr, refl, some, Map, find, Option-cases, find-insert_self,
  find-set_self, arith,
}
use p2p_ps_stun.Ports.{
  PortData, PortManager, u16, u32, new_port_manager, take_base, register, assign_next,
}

-- The numbers fit their types.
pub record IsValid (p : PortManager) : Type 0 where
  pub current_fits : p.current_port < 2 ^ 16
  pub min_fits : p.min_port < 2 ^ 16

-- For a smallest port up to 65000, the first base is drawn from that port to 65000, whatever `rand`
-- returns.
pub new_port_manager_range :
    (reserved min_port rand : ℕ)
    → min_port ≤ 65000
    → (min_port ≤ (new_port_manager reserved min_port rand).current_port)
      × ((new_port_manager reserved min_port rand).current_port ≤ 65000)
      × ((new_port_manager reserved min_port rand).min_port ≡ min_port)
      × IsValid (new_port_manager reserved min_port rand)
unfolding new_port_manager
new_port_manager_range reserved min_port rand h =
    let span : u32 (65000 + 1 + 2 ^ 32 - min_port) ≡ 65001 - min_port = omega arith in
    rw span (omega (arith, mod-lt rand {m = 65001 - min_port} (omega arith)))

register_lem :
    (port now : ℕ) (m : Map PortData)
    → (e : PortData) × (find port (register port now m) ≡ some e)
      × (e.current_port ≡ u16 (port + 1))
unfolding register
register_lem port now m = elim (Option-cases (find port m)) [
  | inl e ↦ (
    record { current_port = u16 (port + 1); timestamp_ms = now },
    rw (e, register) (find-insert_self port _ m e),
    refl,
  )
  | inr (old, e) ↦ (
    record old { current_port = u16 (port + 1) },
    rw (e, register) (find-set_self port _ old m e),
    refl,
  )
]

-- When the port manager's numbers fit their types, a new base port is at least the smallest port, and
-- the port manager knows it then: the first port that is assigned from this base will be the one after
-- it. The numbers still fit.
pub assign_next_base :
    (p : PortManager) (now : ℕ)
    → IsValid p
    → let r = assign_next p now in
      (p.min_port ≤ r.1)
      × (r.1 < 2 ^ 16)
      × ((e : PortData) × (find r.1 (r.0).port_res_port_map ≡ some e)
          × (e.current_port ≡ u16 (r.1 + 1)))
      × IsValid r.0
unfolding assign_next take_base
assign_next_base p now v =
    (ground arith, ground arith, register_lem _ now p.port_res_port_map, ground arith)
