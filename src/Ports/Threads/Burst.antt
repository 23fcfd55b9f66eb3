-- ===== src/Ports/Threads/Burst.antt =====
-- The base ports that threads get from port_manager.h when they call `assign_next` at the same time.
use p2p_ps_stun.Prelude.{
  ℕ, ◌+◌, ◌*◌, ◌^◌, ◌≤◌, ◌<◌, ◌≡◌, ◌⊎◌, inl, inr, List, ◌∷◌, ◌++◌, total-replicate, All,
  All-replicate, All-entry, subst, arith,
}
use p2p_ps_stun.Ports.Threads.{Caller, asks, has, Calls, start, Reach, started, later}
use p2p_ps_stun.Ports.Threads.Invariant.{cost, IsEarly, IsGood, Inv, Step-Inv}

module _ (range min_port : ℕ) where
  Inv-start :
      (current_port count : ℕ)
      → current_port < 2 ^ 16
      → Inv range min_port (count * (range + range)) (start range min_port current_port count)
  Inv-start current_port count h =
      let costs = total-replicate (cost range) count asks in
      let high_or_low : (min_port ≤ current_port) ⊎ (current_port < min_port) = ground arith in
      record {
        fits = h;
        good = All-replicate (IsGood min_port current_port) count asks tt;
        spent = omega (arith, costs);
        phase = elim high_or_low [
          | inl k ↦ inl (All-replicate IsEarly count asks tt, k)
          | inr k ↦ inr (omega (arith, costs, k))
        ];
      }

  Reach-Inv :
      {current_port count : ℕ} {n : Calls range min_port}
      → range < 2 ^ 16
      → current_port < 2 ^ 16
      → min_port + count * (range + range) < 2 ^ 16
      → Reach range min_port current_port count n
      → Inv range min_port (count * (range + range)) n
  Reach-Inv {current_port} {count} small h room started = Inv-start current_port count h
  Reach-Inv small h room (later r s) = Step-Inv small room (Reach-Inv small h room r) s

  -- When some threads call `assign_next` at the same time, once each, and the ports from the smallest
  -- on have room for two ranges of each thread, every thread that has its port has one that is at
  -- least the smallest port, in whatever order they take their steps and wherever the last port was:
  -- also when the ports wrap around in between.
  pub burst_in_range :
      (current_port count : ℕ) (n : Calls range min_port) (before after : List Caller) (port : ℕ)
      → range < 2 ^ 16
      → current_port < 2 ^ 16
      → min_port + count * (range + range) < 2 ^ 16
      → Reach range min_port current_port count n
      → n.callers ≡ before ++ has port ∷ after
      → (min_port ≤ port) × (port < 2 ^ 16)
  burst_in_range current_port count n before after port small h room r e =
      let inv = Reach-Inv small h room r in
      let good = IsGood min_port n.shared.current_port in
      All-entry good before (has port) after (subst (All good) e inv.good)
