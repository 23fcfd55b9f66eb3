-- ===== src/Tests/Threads.antt =====
-- Threads that call `assign_next` of port_manager.h at the same time.
use p2p_ps_stun.Prelude.{◌^◌, ◌≤◌, ◌<◌, ◌≡◌, refl, false, [], ◌∷◌, arith}
use p2p_ps_stun.Ports.{fetch_add_range}
use p2p_ps_stun.Ports.Threads.{
  asks, behind, has, takes, falls_behind, locks, finds_low, resets, takes_again, Calls, move, Reach,
  started, later,
}
use p2p_ps_stun.Ports.Threads.Burst.{burst_in_range}
use p2p_ps_stun.Ports.Threads.Race.{threads_may_share_a_base}

-- Three threads, the third after the wrap.
abbrev ended : Calls 60 5000
ended = record {
  shared = record { current_port = 5060; locked = false };
  callers = has 65450 ∷ has 65510 ∷ has 5000 ∷ [];
}

abbrev At : Calls 60 5000 → Type 0
At = Reach 60 5000 65450 3

ended-Reach : At ended
unfolding fetch_add_range
ended-Reach =
    let two = has 65450 ∷ has 65510 ∷ [] in
    let first : At (record {
      shared = record { current_port = 65510; locked = false };
      callers = has 65450 ∷ asks ∷ asks ∷ [];
    }) =
      later started (move [] (asks ∷ asks ∷ []) refl (takes (omega arith))) in
    let second : At (record {
      shared = record { current_port = 34; locked = false };
      callers = has 65450 ∷ has 65510 ∷ asks ∷ [];
    }) =
      later first (move (has 65450 ∷ []) (asks ∷ []) refl (takes (omega arith))) in
    let fell : At (record {
      shared = record { current_port = 94; locked = false };
      callers = has 65450 ∷ has 65510 ∷ behind ∷ [];
    }) =
      later second (move two [] refl (falls_behind (omega arith))) in
    let held = later fell (move two [] refl (locks refl)) in
    let low = later held (move two [] refl (finds_low (omega arith))) in
    let stored = later low (move two [] refl resets) in later stored (move two [] refl takes_again)

burst_in_range_example : (5000 ≤ 5000) × (5000 < 2 ^ 16)
burst_in_range_example =
    burst_in_range 60 5000 65450 3 ended (has 65450 ∷ has 65510 ∷ []) [] 5000 (omega arith)
      (omega arith) (omega arith) ended-Reach refl

threads_may_share_a_base_example :
    (n : Calls 60 5000) × Reach 60 5000 4880 3 n × (n.callers ≡ has 5000 ∷ behind ∷ has 5000 ∷ [])
threads_may_share_a_base_example =
    threads_may_share_a_base 60 5000 4880 (omega arith) refl (omega arith)
