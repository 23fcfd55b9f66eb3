-- ===== src/Ports/Threads/Stages.antt =====
-- The base ports of threads that call `assign_next` of port_manager.h at the same time, before and
-- after the shared port wraps around.
use p2p_ps_stun.Prelude.{
  ℕ, ◌+◌, ◌^◌, ◌≤◌, ◌<◌, ◌≡◌, ◌&&◌, Bool, List, ◌∷◌, ◌++◌, total, total-middle, total-le, not, ltb,
  if◌then◌else◌, arith,
}
use p2p_ps_stun.Ports.Threads.{Caller, asks, behind, tests, stores, retakes, has, Calls}
use p2p_ps_stun.Ports.Threads.Invariant.{cost}

abbrev pub asking_cost : ℕ → Caller → ℕ
asking_cost range asks = range
asking_cost range _ = 0

abbrev pub is_inside : Caller → ℕ
is_inside asks = 0
is_inside (has _) = 0
is_inside _ = 1

abbrev pub holds : Caller → ℕ
holds tests = 1
holds stores = 1
holds retakes = 1
holds _ = 0

abbrev pub is_storing : Caller → ℕ
is_storing stores = 1
is_storing _ = 0

abbrev pub is_retaking : Caller → ℕ
is_retaking retakes = 1
is_retaking _ = 0

-- Whether `x` lies in the range of a thread's base.
abbrev pub covers : ℕ → ℕ → Caller → ℕ
covers range x (has base) = if not (ltb x base) && ltb x (base + range) then 1 else 0
covers range x _ = 0

abbrev pub bit : Bool → ℕ
bit b = if b then 1 else 0

module _ (range min_port first bound : ℕ) where
  module _ (n : Calls range min_port) where
    abbrev port : ℕ
    port = n.shared.current_port

    abbrev IsFree : ℕ → Type 0
    IsFree x = total (covers range x) n.callers ≡ 0

    -- Before the shared port wraps around.
    pub record Early : Type 0 where
      pub inside : total is_inside n.callers ≡ 0
      pub small : port < 2 ^ 16
      pub above : first ≤ port
      pub steps : port + total (asking_cost range) n.callers ≤ first + bound
      pub free_below : (x : ℕ) → x < first → IsFree x
      pub free : (x : ℕ) → port ≤ x → IsFree x

    -- Until a thread stores the smallest port.
    pub record Wrapped : Type 0 where
      pub high : 2 ^ 16 ≤ first + bound
      pub steps : port + total (asking_cost range) n.callers < bound
      pub retaking : total is_retaking n.callers ≡ 0
      pub free : (x : ℕ) → x < first → IsFree x

    -- From then on.
    pub record Reset : Type 0 where
      pub high : 2 ^ 16 ≤ first + bound
      pub above : min_port ≤ port
      pub steps : port + total (cost range) n.callers ≤ min_port + bound + bound
      pub storing : total is_storing n.callers ≡ 0
      pub free : (x : ℕ) → port ≤ x → x < first → IsFree x

    pub data Stage : Type 0 where
      early : Early → Stage
      wrapped : Wrapped → Stage
      reset : Reset → Stage

    pub record Inv : Type 0 where
      pub unique : (x : ℕ) → total (covers range x) n.callers ≤ 1
      pub lock : total holds n.callers ≡ bit n.shared.locked
      pub spent : total (cost range) n.callers ≤ bound + bound
      pub stage : Stage

-- A sum before and after one thread's step.
total-move :
    {callers : List Caller} (before after : List Caller) (w : Caller → ℕ) (t t' : Caller)
    → callers ≡ before ++ t ∷ after
    → total w (before ++ t' ∷ after) + w t ≡ total w callers + w t'
total-move before after w t t' e =
    rw e (omega (arith, total-middle w before t after, total-middle w before t' after))

-- The sums before and after one thread's step.
pub record Moved (range : ℕ) (callers callers' : List Caller) (t t' : Caller) : Type 0 where
  pub asking :
      total (asking_cost range) callers' + asking_cost range t
      ≡ total (asking_cost range) callers + asking_cost range t'
  pub whole :
      total (cost range) callers' + cost range t ≡ total (cost range) callers + cost range t'
  pub inside : total is_inside callers' + is_inside t ≡ total is_inside callers + is_inside t'
  pub holders : total holds callers' + holds t ≡ total holds callers + holds t'
  pub storing : total is_storing callers' + is_storing t ≡ total is_storing callers + is_storing t'
  pub retaking :
      total is_retaking callers' + is_retaking t ≡ total is_retaking callers + is_retaking t'
  pub covered :
      (x : ℕ)
      → total (covers range x) callers' + covers range x t
        ≡ total (covers range x) callers + covers range x t'
  pub stores_hold : total is_storing callers ≤ total holds callers
  pub part : is_inside t ≤ total is_inside callers
  pub retakes_inside : total is_retaking callers ≤ total is_inside callers

is_storing-le : (t : Caller) → is_storing t ≤ holds t
is_storing-le asks = omega arith
is_storing-le behind = omega arith
is_storing-le tests = omega arith
is_storing-le stores = omega arith
is_storing-le retakes = omega arith
is_storing-le (has p) = omega arith

is_retaking-le : (t : Caller) → is_retaking t ≤ is_inside t
is_retaking-le asks = omega arith
is_retaking-le behind = omega arith
is_retaking-le tests = omega arith
is_retaking-le stores = omega arith
is_retaking-le retakes = omega arith
is_retaking-le (has p) = omega arith

pub moved :
    (range : ℕ) {callers : List Caller} (before after : List Caller) (t t' : Caller)
    → callers ≡ before ++ t ∷ after
    → Moved range callers (before ++ t' ∷ after) t t'
moved range {callers} before after t t' e = record {
  asking = total-move before after (asking_cost range) t t' e;
  whole = total-move before after (cost range) t t' e;
  inside = total-move before after is_inside t t' e;
  holders = total-move before after holds t t' e;
  storing = total-move before after is_storing t t' e;
  retaking = total-move before after is_retaking t t' e;
  covered = λ x. total-move before after (covers range x) t t' e;
  stores_hold = total-le is_storing holds is_storing-le callers;
  part = rw e (omega (arith, total-middle is_inside before t after));
  retakes_inside = total-le is_retaking is_inside is_retaking-le callers;
}
