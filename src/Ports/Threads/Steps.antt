-- ===== src/Ports/Threads/Steps.antt =====
-- The steps of threads that call `assign_next` of port_manager.h at the same time keep their ranges
-- apart.
use p2p_ps_stun.Prelude.{
  ℕ, ◌+◌, ◌^◌, ◌≤◌, ◌<◌, ◌≡◌, ◌⊎◌, inl, inr, refl, Bool, true, false, List, ◌∷◌, ◌++◌, total, arith,
}
use p2p_ps_stun.Ports.{u16}
use p2p_ps_stun.Ports.Threads.{Shared, Caller, asks, behind, tests, stores, retakes, has, Calls}
use p2p_ps_stun.Ports.Threads.Invariant.{cost}
use p2p_ps_stun.Ports.Threads.Stages.{
  asking_cost, is_storing, is_retaking, covers, Early, Wrapped, Reset, Stage, early, wrapped, reset,
  Inv, Moved, moved,
}

module _ {range min_port first bound : ℕ} (low : bound ≤ min_port)
    (room : min_port + bound + bound + bound ≤ 2 ^ 16) (starts : min_port ≤ first)
    (fits : first < 2 ^ 16) {n : Calls range min_port} (inv : Inv range min_port first bound n)
    (before after : List Caller) where
  abbrev pub port : ℕ
  port = n.shared.current_port

  abbrev pub next : ℕ
  next = u16 (port + range)

  abbrev pub IsNext : Shared → Caller → Type 0
  IsNext s t = Inv range min_port first bound (record { shared = s; callers = before ++ t ∷ after })

  takes_early :
      n.callers ≡ before ++ asks ∷ after
      → Early range min_port first bound n
      → Stage range min_port first bound (record {
        shared = record n.shared { current_port = next };
        callers = before ++ has port ∷ after;
      })
  takes_early e k =
      let m = moved range before after asks (has port) e in
      let small : range < 2 ^ 16 = omega (arith, m.whole, inv.spent) in
      let ends : ((port + range < 2 ^ 16) × (next ≡ port + range))
          ⊎ ((2 ^ 16 ≤ port + range) × (next + 2 ^ 16 ≡ port + range)) =
        ground (arith, k.small, small) in
      elim ends [
        | inl plain ↦ early (record {
          inside = omega (arith, m.inside, k.inside);
          small = omega (arith, plain);
          above = omega (arith, plain, k.above);
          steps = omega (arith, plain, m.asking, k.steps);
          free_below = λ x a. ground (arith, m.covered x, k.free_below x, k.above);
          free = λ x a. ground (arith, m.covered x, k.free x, plain);
        })
        | inr wraps ↦ wrapped (record {
          high = omega (arith, wraps, m.asking, k.steps);
          steps = omega (arith, wraps, m.asking, k.steps);
          retaking = retaking m;
          free = λ x a. ground (arith, m.covered x, k.free_below x, k.above);
        })
      ]
    where
      retaking :
          Moved range n.callers (before ++ has port ∷ after) asks (has port)
          → total is_retaking (before ++ has port ∷ after) ≡ 0
      retaking m = omega (arith, m.retaking, m.retakes_inside, k.inside)

  pub takes-Inv :
      n.callers ≡ before ++ asks ∷ after
      → min_port ≤ port
      → IsNext (record n.shared { current_port = next }) (has port)
  takes-Inv e h =
      let m = moved range before after asks (has port) e in
      record {
        unique = elim inv.stage [
          | early k ↦ λ x. ground (arith, m.covered x, inv.unique x, k.free x)
          | wrapped k ↦ λ x. ground (arith, m.covered x, inv.unique x, k.steps)
          | reset k ↦ λ x. ground (arith, m.covered x, inv.unique x, k.free x, k.steps, m.whole)
        ];
        lock = omega (arith, m.holders, inv.lock);
        spent = omega (arith, m.whole, inv.spent);
        stage = elim inv.stage [
          | early k ↦ takes_early e k
          | wrapped k ↦ absurd (omega (arith, k.steps))
          | reset k ↦
              let plain : next ≡ port + range = omega (arith, k.steps, m.whole) in
              reset (record {
                high = k.high;
                above = omega (arith, plain, h);
                steps = omega (arith, m.whole, k.steps, plain);
                storing = omega (arith, m.storing, k.storing);
                free = λ x a b. ground (arith, m.covered x, k.free x, plain, a, b);
              })
        ];
      }

  pub falls_behind-Inv :
      n.callers ≡ before ++ asks ∷ after
      → port < min_port
      → IsNext (record n.shared { current_port = next }) behind
  falls_behind-Inv e h =
      let m = moved range before after asks behind e in
      record {
        unique = λ x. omega (arith, m.covered x, inv.unique x);
        lock = omega (arith, m.holders, inv.lock);
        spent = omega (arith, m.whole, inv.spent);
        stage = elim inv.stage [
          | early k ↦ absurd (omega (arith, k.above))
          | wrapped k ↦
              let plain : next ≡ port + range = omega (arith, k.steps, m.asking) in
              wrapped (record {
                high = k.high;
                steps = omega (arith, m.asking, k.steps, plain);
                retaking = omega (arith, m.retaking, k.retaking);
                free = λ x a. omega (arith, m.covered x, k.free x a);
              })
          | reset k ↦ absurd (omega (arith, k.above))
        ];
      }

  -- A step that leaves the shared port, when a thread takes the mutex or tests within it.
  stays_wrapped :
      {t t' : Caller} {locked : Bool}
      → Moved range n.callers (before ++ t' ∷ after) t t'
      → asking_cost range t' ≡ asking_cost range t
      → is_retaking t' ≡ is_retaking t
      → ((x : ℕ) → covers range x t' ≡ covers range x t)
      → Wrapped range min_port first bound n
      → Wrapped range min_port first bound
          (record { shared = record n.shared { locked = locked }; callers = before ++ t' ∷ after })
  stays_wrapped m asking retaking covered k = record {
    high = k.high;
    steps = omega (arith, m.asking, asking, k.steps);
    retaking = omega (arith, m.retaking, retaking, k.retaking);
    free = λ x a. omega (arith, m.covered x, covered x, k.free x a);
  }

  stays_reset :
      {t t' : Caller} {locked : Bool}
      → Moved range n.callers (before ++ t' ∷ after) t t'
      → cost range t' ≡ cost range t
      → is_storing t' ≡ is_storing t
      → ((x : ℕ) → covers range x t' ≡ covers range x t)
      → Reset range min_port first bound n
      → Reset range min_port first bound
          (record { shared = record n.shared { locked = locked }; callers = before ++ t' ∷ after })
  stays_reset m whole storing covered k = record {
    high = k.high;
    above = k.above;
    steps = omega (arith, m.whole, whole, k.steps);
    storing = omega (arith, m.storing, storing, k.storing);
    free = λ x a b. omega (arith, m.covered x, covered x, k.free x a b);
  }

  pub locks-Inv :
      n.callers ≡ before ++ behind ∷ after
      → n.shared.locked ≡ false
      → IsNext (record n.shared { locked = true }) tests
  locks-Inv e h =
      let m = moved range before after behind tests e in
      record {
        unique = λ x. omega (arith, m.covered x, inv.unique x);
        lock = ground (arith, m.holders, inv.lock);
        spent = omega (arith, m.whole, inv.spent);
        stage = elim inv.stage [
          | early k ↦ absurd (omega (arith, m.part, k.inside))
          | wrapped k ↦ wrapped (stays_wrapped m refl refl (λ x. refl) k)
          | reset k ↦ reset (stays_reset m refl refl (λ x. refl) k)
        ];
      }

  pub finds_low-Inv : n.callers ≡ before ++ tests ∷ after → port < min_port → IsNext n.shared stores
  finds_low-Inv e h =
      let m = moved range before after tests stores e in
      record {
        unique = λ x. omega (arith, m.covered x, inv.unique x);
        lock = omega (arith, m.holders, inv.lock);
        spent = omega (arith, m.whole, inv.spent);
        stage = elim inv.stage [
          | early k ↦ absurd (omega (arith, k.above))
          | wrapped k ↦ wrapped (stays_wrapped m refl refl (λ x. refl) k)
          | reset k ↦ absurd (omega (arith, k.above))
        ];
      }

  pub finds_high-Inv :
      n.callers ≡ before ++ tests ∷ after → min_port ≤ port → IsNext n.shared retakes
  finds_high-Inv e h =
      let m = moved range before after tests retakes e in
      record {
        unique = λ x. omega (arith, m.covered x, inv.unique x);
        lock = omega (arith, m.holders, inv.lock);
        spent = omega (arith, m.whole, inv.spent);
        stage = elim inv.stage [
          | early k ↦ absurd (omega (arith, m.part, k.inside))
          | wrapped k ↦ absurd (omega (arith, k.steps))
          | reset k ↦ reset (stays_reset m refl refl (λ x. refl) k)
        ];
      }

  pub resets-Inv :
      n.callers ≡ before ++ stores ∷ after
      → IsNext (record n.shared { current_port = min_port }) retakes
  resets-Inv e =
      let m = moved range before after stores retakes e in
      let free : (x : ℕ) → x < first → total (covers range x) n.callers ≡ 0 = elim inv.stage [
        | early k ↦ absurd (omega (arith, m.part, k.inside))
        | wrapped k ↦ k.free
        | reset k ↦ absurd (omega (arith, m.storing, k.storing))
      ] in
      let high : 2 ^ 16 ≤ first + bound = elim inv.stage [
        | early k ↦ absurd (omega (arith, m.part, k.inside))
        | wrapped k ↦ k.high
        | reset k ↦ k.high
      ] in
      record {
        unique = λ x. omega (arith, m.covered x, inv.unique x);
        lock = omega (arith, m.holders, inv.lock);
        spent = omega (arith, m.whole, inv.spent);
        stage = reset (record {
          high = high;
          above = omega arith;
          steps = omega (arith, m.whole, inv.spent);
          storing = ground (arith, m.storing, m.stores_hold, inv.lock);
          free = λ x a b. omega (arith, m.covered x, free x b);
        });
      }

  pub takes_again-Inv :
      n.callers ≡ before ++ retakes ∷ after
      → IsNext (record { current_port = next; locked = false }) (has port)
  takes_again-Inv e =
      let m = moved range before after retakes (has port) e in
      let late : Reset range min_port first bound n = elim inv.stage [
        | early k ↦ absurd (omega (arith, m.part, k.inside))
        | wrapped k ↦ absurd (omega (arith, m.retaking, k.retaking))
        | reset k ↦ k
      ] in
      let plain : next ≡ port + range = omega (arith, late.steps, m.whole) in
      record {
        unique = λ x.
            ground (arith, m.covered x, inv.unique x, late.free x, late.high, late.steps, m.whole);
        lock = ground (arith, m.holders, inv.lock);
        spent = omega (arith, m.whole, inv.spent);
        stage = reset (record {
          high = late.high;
          above = omega (arith, plain, late.above);
          steps = omega (arith, m.whole, late.steps, plain);
          storing = omega (arith, m.storing, late.storing);
          free = λ x a b. ground (arith, m.covered x, late.free x, plain);
        });
      }
