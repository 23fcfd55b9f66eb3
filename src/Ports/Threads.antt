-- ===== src/Ports/Threads.antt =====
-- `assign_next` of port_manager.h when several threads call it at the same time: the atomic steps on
-- `current_port`, and `port_reset_mutex`. The map of ports is locked apart, and left out here.
pub mod Invariant
pub mod Burst
pub mod Race
pub mod Stages
pub mod Steps
pub mod Disjoint
use p2p_ps_stun.Prelude.{ℕ, ◌≤◌, ◌<◌, ◌≡◌, Bool, true, false, List, [], ◌∷◌, ◌++◌, replicate}
use p2p_ps_stun.Ports.{fetch_add_range}

-- What the threads share.
pub record Shared : Type 0 where
  pub current_port : ℕ
  pub locked : Bool

-- Where a thread stands in its call: before the first `fetch_add`; before the mutex, when its port was
-- too small; before the test, before the store and before the second `fetch_add` while it holds the
-- mutex; and with its port.
pub data Caller : Type 0 where
  asks behind tests stores retakes : Caller
  has : ℕ → Caller

module _ (range min_port : ℕ) where
  -- A `fetch_add` of the shared port, and the value before it.
  abbrev pub bump : Shared → Shared
  bump s = record s { current_port = (fetch_add_range range s.current_port).1 }

  abbrev pub old_port : Shared → ℕ
  old_port s = (fetch_add_range range s.current_port).0

  pub data Move (s : Shared) : Caller → Shared → Caller → Type 0 where
    takes : min_port ≤ old_port s → Move s asks (bump s) (has (old_port s))
    falls_behind : old_port s < min_port → Move s asks (bump s) behind
    locks : s.locked ≡ false → Move s behind (record s { locked = true }) tests
    finds_low : s.current_port < min_port → Move s tests s stores
    finds_high : min_port ≤ s.current_port → Move s tests s retakes
    resets : Move s stores (record s { current_port = min_port }) retakes
    takes_again : Move s retakes (record (bump s) { locked = false }) (has (old_port s))

  pub record Calls : Type 0 where
    pub shared : Shared
    pub callers : List Caller

  -- Any thread may take the next step.
  pub data Step (n : Calls) : Calls → Type 0 where
    move :
        (before : List Caller) {t t' : Caller} (after : List Caller) {s : Shared}
        → n.callers ≡ before ++ t ∷ after
        → Move n.shared t s t'
        → Step n (record { shared = s; callers = before ++ t' ∷ after })

  -- `count` threads call once each.
  abbrev pub start : ℕ → ℕ → Calls
  start current_port count = record {
    shared = record { current_port = current_port; locked = false };
    callers = replicate count asks;
  }

  pub data Reach (current_port count : ℕ) : Calls → Type 0 where
    started : Reach current_port count (start current_port count)
    later : {n m : Calls} → Reach current_port count n → Step n m → Reach current_port count m
