-- ===== src/Ports/Threads/Race.antt =====
-- Threads that get the same base port from port_manager.h.
use p2p_ps_stun.Prelude.{ℕ, ◌+◌, ◌^◌, ◌<◌, ◌≡◌, ap, refl, false, true, Bool, List, [], ◌∷◌, arith}
use p2p_ps_stun.Ports.{u16, fetch_add_range}
use p2p_ps_stun.Ports.Threads.{
  Caller, asks, behind, tests, stores, retakes, has, takes, falls_behind, locks, finds_low, resets,
  takes_again, Calls, move, Reach, started, later,
}

module _ (range min_port first : ℕ) where
  abbrev calls : ℕ → Bool → List Caller → Calls range min_port
  calls current_port locked ts = record {
    shared = record { current_port = current_port; locked = locked };
    callers = ts;
  }

  -- The shared port after one, two and three calls of `fetch_add`.
  abbrev after_one : ℕ
  after_one = u16 (first + range)

  abbrev after_two : ℕ
  after_two = u16 (after_one + range)

  abbrev after_three : ℕ
  after_three = u16 (after_two + range)

  abbrev Reached : Calls range min_port → Type 0
  Reached = Reach range min_port first 3

  module _ (pos : 0 < range) (two : first + range + range ≡ min_port)
      (room : min_port + range < 2 ^ 16) where
    -- The first thread is about to store the smallest port, and two others fetch.
    overtaken : Reached (calls after_three true (stores ∷ behind ∷ has after_two ∷ []))
    unfolding fetch_add_range
    overtaken =
        let fell : Reached (calls after_one false (behind ∷ asks ∷ asks ∷ [])) =
          later started (move [] (asks ∷ asks ∷ []) refl (falls_behind (omega arith))) in
        let held : Reached (calls after_one true (tests ∷ asks ∷ asks ∷ [])) =
          later fell (move [] (asks ∷ asks ∷ []) refl (locks refl)) in
        let low : Reached (calls after_one true (stores ∷ asks ∷ asks ∷ [])) =
          later held (move [] (asks ∷ asks ∷ []) refl (finds_low (omega arith))) in
        let fell_too : Reached (calls after_two true (stores ∷ behind ∷ asks ∷ [])) =
          later low (move (stores ∷ []) (asks ∷ []) refl (falls_behind (omega arith))) in
        later fell_too (move (stores ∷ behind ∷ []) [] refl (takes (omega arith)))

    reset :
        Reached (calls (u16 (min_port + range)) false (has min_port ∷ behind ∷ has after_two ∷ []))
    unfolding fetch_add_range
    reset =
        let stored : Reached (calls min_port true (retakes ∷ behind ∷ has after_two ∷ [])) =
          later overtaken (move [] (behind ∷ has after_two ∷ []) refl resets) in
        later stored (move [] (behind ∷ has after_two ∷ []) refl takes_again)

-- Whatever the range and the smallest port, when the shared port stands two ranges below the smallest
-- port, three threads that call `assign_next` at the same time can get the same base twice: between
-- the test and the store of the first, which holds the mutex, the others' `fetch_add` reach it.
pub threads_may_share_a_base :
    (range min_port first : ℕ)
    → 0 < range
    → first + range + range ≡ min_port
    → min_port + range < 2 ^ 16
    → (n : Calls range min_port) × Reach range min_port first 3 n
      × (n.callers ≡ has min_port ∷ behind ∷ has min_port ∷ [])
threads_may_share_a_base range min_port first pos two room =
    let same : after_two range min_port first ≡ min_port = omega arith in
    (_, reset range min_port first pos two room, ap (λ q. has min_port ∷ behind ∷ has q ∷ []) same)
