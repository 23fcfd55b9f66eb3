-- ===== src/Ports.antt =====
-- `port_manager_t`, P2P_PS/sources/client/src/connection/port_manager.h: the local ports that the
-- sockets of this process bind to. One call at a time.
pub mod Bases
pub mod Scan
pub mod Blocks
pub mod Threads
use p2p_ps_stun.Prelude.{
  ℕ, ◌+◌, ◌-◌, ◌%◌, ◌^◌, Option, none, some, Map, [], find, insert, set, ltb, ◌==◌, if◌then◌else◌,
}
use p2p_ps_stun.Double.{Double}

-- `port_data_t`
pub record PortData : Type 0 where
  pub current_port : ℕ
  pub timestamp_ms : ℕ

-- The locks and the random generator are left out; the draws of the generator are arguments.
pub record PortManager : Type 0 where
  pub port_res_port_map : Map PortData
  pub current_port : ℕ
  pub simulated_normal_allocs_per_second : ℕ
  pub reserved_port_range_per_alloc : ℕ
  pub min_port : ℕ

abbrev pub u16 : ℕ → ℕ
u16 n = n % 2 ^ 16

abbrev pub u32 : ℕ → ℕ
u32 n = n % 2 ^ 32

-- The constructor; `rand` is the value of `rand()`.
unfoldable pub new_port_manager : ℕ → ℕ → ℕ → PortManager
new_port_manager reserved_port_range_per_unit min_port rand = record {
  port_res_port_map = [];
  current_port = u16 (u32 (min_port + rand % u32 (65000 + 1 + 2 ^ 32 - min_port)));
  simulated_normal_allocs_per_second = 0;
  reserved_port_range_per_alloc = u16 reserved_port_range_per_unit;
  min_port = u16 min_port;
}

unfoldable pub set_simulated_allocs_per_second : ℕ → PortManager → PortManager
set_simulated_allocs_per_second alloc_per_sec p = record p {
  simulated_normal_allocs_per_second = alloc_per_sec;
}

unfoldable pub set_reserved_port_range_per_alloc : ℕ → PortManager → PortManager
set_reserved_port_range_per_alloc reserved_range p = record p {
  reserved_port_range_per_alloc = reserved_range;
}

module _ (f : Double) where
  open f use {Number, of_ℕ, half, add, mul, div, is_positive, to_u16}

  -- The ports that others are taken to have used since the last call for this base.
  unfoldable pub simulated_offset : ℕ → ℕ → ℕ → Number → ℕ
  simulated_offset allocs_per_second old_time now draw =
      let rnd_val = if is_positive draw then draw else of_ℕ 0 in
      let tdiff = div (of_ℕ ((now + 2 ^ 64 - old_time) % 2 ^ 64)) (of_ℕ 1000) in
      to_u16 (add (mul (mul tdiff (of_ℕ allocs_per_second)) rnd_val) half)

  -- The offset, and the data with the time that the call leaves.
  unfoldable pub next_offset : PortManager → PortData → ℕ → Number → ℕ × PortData
  next_offset p e now draw = if p.simulated_normal_allocs_per_second == 0 then (0, e) else (
    simulated_offset p.simulated_normal_allocs_per_second e.timestamp_ms now draw,
    record e { timestamp_ms = now },
  )

  -- `fetch_add(offset + 1) + offset`, and the correction of a port that has wrapped around.
  unfoldable pub take_port : ℕ → ℕ → PortData → ℕ × PortData
  take_port min_port offset e =
      let port = u16 (e.current_port + offset) in
      (
        if ltb port min_port then u16 (port + min_port) else port,
        record e { current_port = u16 (e.current_port + offset + 1) },
      )

  unfoldable pub assign_next_from_base : PortManager → ℕ → ℕ → Number → PortManager × ℕ
  unfolding next_offset take_port
  assign_next_from_base p base_port now draw = elim (find base_port p.port_res_port_map) [
    | none ↦ (p, 0)
    | some e ↦
        let (offset, e') = next_offset p e now draw in
        let (port, e'') = take_port p.min_port offset e' in
        (record p { port_res_port_map = set base_port e'' p.port_res_port_map }, port)
  ]

-- `fetch_add(reserved_port_range_per_alloc_)` on `current_port`: the old value and the new one.
unfoldable pub fetch_add_range : ℕ → ℕ → ℕ × ℕ
fetch_add_range range current_port = (current_port, u16 (current_port + range))

-- After a wrap: `current_port` is moved up to the smallest port, and a range is taken again.
unfoldable pub retake_base : PortManager → ℕ → ℕ × ℕ
unfolding fetch_add_range
retake_base p current_port =
    fetch_add_range p.reserved_port_range_per_alloc
      (if ltb current_port p.min_port then p.min_port else current_port)

-- The base port that `assign_next` takes, and what it leaves in `current_port`.
unfoldable pub take_base : PortManager → ℕ × ℕ
unfolding fetch_add_range retake_base
take_base p =
    let (my_port, next) = fetch_add_range p.reserved_port_range_per_alloc p.current_port in
    let again = retake_base p next in if ltb my_port p.min_port then again else (my_port, next)

unfoldable pub register : ℕ → ℕ → Map PortData → Map PortData
register my_port now m = elim (find my_port m) [
  | none ↦ insert my_port (record { current_port = u16 (my_port + 1); timestamp_ms = now }) m
  | some e ↦ set my_port (record e { current_port = u16 (my_port + 1) }) m
]

unfoldable pub assign_next : PortManager → ℕ → PortManager × ℕ
unfolding take_base register
assign_next p now =
    let (my_port, next) = take_base p in
    (
      record p {
        current_port = next;
        port_res_port_map = register my_port now p.port_res_port_map;
      },
      my_port,
    )
