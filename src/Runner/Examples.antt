-- ===== src/Runner/Examples.antt =====
-- Schedules of the runners of main.cpp, one thread's step after another.
use Prim.Native.Nat.{ℕ, zero, suc}
use mathlib.Core.Logic.{dite}
use native.Mathlib.Decide.{dec_lt}
use p2p_ps_stun.Prelude.{
  ◌+◌, ◌≤◌, ◌≡◌, ◌⊎◌, refl, ap, Option, none, some, List, [], ◌∷◌, ◌++◌, total, arith,
}
use p2p_ps_stun.Connector.Types.{connection_successful}
use p2p_ps_stun.Runner.{
  Thread, claiming, running, stopped, System, Step, processor_count, count_result, claim, stop,
  finish, move, start, Reach, started, later,
}
use p2p_ps_stun.Runner.Invariant.{counted, is_running}
use p2p_ps_stun.Runner.Results.{AllStopped}
use p2p_ps_stun.Runner.Outcomes.{outcomes, has_id, Tells, counters_tell_outcomes}
use p2p_ps_stun.Runner.Report.{report, report_adds_up}
use p2p_ps_stun.Runner.Ending.{steps, every_schedule_ends}

record Place (ts : List Thread) : Type 0 where
  before : List Thread
  thread : Thread
  after : List Thread
  split : ts ≡ before ++ thread ∷ after

beyond : {ts : List Thread} (t : Thread) → Option (Place ts) → Option (Place (t ∷ ts))
beyond t none = none
beyond t (some p) = some (record {
  before = t ∷ p.before;
  thread = p.thread;
  after = p.after;
  split = ap (λ l. t ∷ l) p.split;
})

place : (ts : List Thread) → ℕ → Option (Place ts)
unfolding beyond
place [] i = none
place (t ∷ ts) zero = some (record { before = []; thread = t; after = ts; split = refl })
place (t ∷ ts) (suc i) = beyond t (place ts i)

record Run (runs : ℕ) : Type 0 where
  last : System
  reach : Reach runs last

-- The step of the thread at a place, whose connections succeed.
act :
    {runs : ℕ} (r : Run runs) (before : List Thread) (t : Thread) (after : List Thread)
    → r.last.threads ≡ before ++ t ∷ after
    → Run runs
act r before claiming after e =
    dite (dec_lt r.last.counters.current_transaction_id r.last.counters.run_count)
      (λ h. record { last = _; reach = later r.reach (move before after e (claim h)) })
      (λ h. record { last = _; reach = later r.reach (move before after e (stop (omega arith))) })
act r before (running id) after e = record {
  last = _;
  reach = later r.reach (move before after e (finish connection_successful (λ h. cc)));
}
act r before stopped after e = r

turn : {runs : ℕ} → Run runs → ℕ → Run runs
unfolding act place
turn r i = elim (place r.last.threads i) [
  | none ↦ r
  | some p ↦ act r p.before p.thread p.after p.split
]

turns : {runs : ℕ} → Run runs → List ℕ → Run runs
unfolding turn dec_lt count_result
turns r [] = r
turns r (i ∷ is) = turns (turn r i) is

abbrev begun : (runs : ℕ) → Run runs
begun runs = record { last = start runs; reach = started }

-- Two threads at work on three runs.
abbrev at_work : Run 3
at_work = turns (begun 3) (0 ∷ 5 ∷ 0 ∷ 0 ∷ [])

at_work_state : (counted at_work.last.counters ≡ 1) × (total is_running at_work.last.threads ≡ 2)
unfolding turns total
at_work_state = (refl, refl)

counters_tell_outcomes_example : Tells 3 at_work.last (outcomes at_work.reach)
unfolding turns
counters_tell_outcomes_example = counters_tell_outcomes 3 at_work.last (omega arith) at_work.reach

-- Thread 0 has returned once, with the id 0.
one_outcome : total (has_id 0) (outcomes at_work.reach) ≡ 1
unfolding turns total
one_outcome = refl

abbrev countdown : ℕ → List ℕ
countdown zero = []
countdown (suc n) = n ∷ countdown n

abbrev at_rest : Run 3
at_rest = turns at_work (0 ∷ 5 ∷ countdown 16)

report_adds_up_example :
    let r = report 3 at_rest.last.counters in
    (r.succeeded + r.failed + r.errored ≡ r.runs) × (r.rated ≡ r.succeeded + r.failed)
unfolding turns
report_adds_up_example = report_adds_up 3 at_rest.last (omega arith) at_rest.reach (ground arith)

every_schedule_ends_example :
    (steps at_work.reach ≤ 3 + 3 + processor_count)
    × (AllStopped at_work.last.threads ⊎ ((s' : System) × Step at_work.last s'))
unfolding turns
every_schedule_ends_example = every_schedule_ends 3 at_work.last at_work.reach (omega arith)
