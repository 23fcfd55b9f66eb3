-- ===== src/Runner/Outcomes.antt =====
-- The outcomes of the runs of main.cpp's statistical runners, in the order in which they are counted.
use p2p_ps_stun.Prelude.{
  ℕ, ◌+◌, ◌^◌, ◌<◌, ◌≤◌, ◌≢◌, ◌≡◌, refl, List, [], ◌∷◌, ◌++◌, ◌&&◌, ltb, ◌==◌, if◌then◌else◌, total,
  arith,
}
use p2p_ps_stun.Connector.Types.{
  ConnectResult, connection_successful, connection_failed_no_server_match_in_time, connection_error,
  connection_failed,
}
use p2p_ps_stun.Runner.{
  Counters, count_result, Thread, claiming, running, stopped, System, take_id, claim, stop, finish,
  Step, move, processor_count, start, Reach, started, later,
}
use p2p_ps_stun.Runner.Invariant.{
  is_running, runs_id, counted, count_result-counted, Inv, Reach-Inv, total-move,
}

-- A run that has returned.
pub record Outcome : Type 0 where
  pub id : ℕ
  pub result : ConnectResult

abbrev pub outcome : {s t : System} → Step s t → List Outcome
outcome (move before after e (claim h)) = []
outcome (move before after e (stop h)) = []
outcome (move before after e (finish {id = id} result h)) = record { id = id; result = result } ∷ []

abbrev pub outcomes : {runs : ℕ} {s : System} → Reach runs s → List Outcome
outcomes started = []
outcomes (later r st) = outcome st ++ outcomes r

abbrev pub is_success : Outcome → ℕ
is_success o = elim o.result as (λ _. ℕ) [ connection_successful ↦ 1 | _ ↦ 0 ]

abbrev pub is_failure : Outcome → ℕ
is_failure o = elim o.result as (λ _. ℕ) [ connection_failed ↦ 1 | _ ↦ 0 ]

abbrev pub is_mistake : Outcome → ℕ
is_mistake o = elim o.result as (λ _. ℕ) [
  | connection_failed_no_server_match_in_time ↦ 1
  | connection_error ↦ 1
  | _ ↦ 0
]

abbrev pub has_id : ℕ → Outcome → ℕ
has_id id o = if o.id == id then 1 else 0

-- The counters and the threads against the outcomes `os`.
pub record Tells (runs : ℕ) (s : System) (os : List Outcome) : Type 0 where
  pub successes : s.counters.successfull_runs ≡ total is_success os
  pub failures : s.counters.failed_runs ≡ total is_failure os
  pub mistakes : s.counters.programm_mistakes ≡ total is_mistake os
  pub once :
      (id : ℕ)
      → total (has_id id) os + total (runs_id id) s.threads
        ≡ (if ltb id s.counters.current_transaction_id && ltb id runs then 1 else 0)

Tells-start : (runs : ℕ) → Tells runs (start runs) []
unfolding total
Tells-start runs = record {
  successes = refl;
  failures = refl;
  mistakes = refl;
  once = λ id. ground arith;
}

-- What one outcome adds to the counters.
counts :
    (o : Outcome) (c : Counters)
    → o.result ≢ ConnectResult.invalid
    → counted c + 1 < 2 ^ 32
    → ((count_result o.result c).successfull_runs ≡ is_success o + c.successfull_runs)
      × ((count_result o.result c).failed_runs ≡ is_failure o + c.failed_runs)
      × ((count_result o.result c).programm_mistakes ≡ is_mistake o + c.programm_mistakes)
unfolding count_result
counts o c h k = ground arith

module _ {runs : ℕ} {s : System} {os : List Outcome} (inv : Inv runs s)
    (small : runs + processor_count + 1 < 2 ^ 32) (told : Tells runs s os)
    (before after : List Thread) where
  claim-Tells :
      s.threads ≡ before ++ claiming ∷ after
      → s.counters.current_transaction_id < s.counters.run_count
      → Tells runs
          (record {
            counters = take_id s.counters;
            threads = before ++ running s.counters.current_transaction_id ∷ after;
          })
          os
  claim-Tells e h = record {
    successes = told.successes;
    failures = told.failures;
    mistakes = told.mistakes;
    once = λ id. ground (
      arith,
      told.once id,
      inv.fixed,
      total-move inv small before after (runs_id id) claiming
          (running s.counters.current_transaction_id) e,
    );
  }

  stop-Tells :
      s.threads ≡ before ++ claiming ∷ after
      → s.counters.run_count ≤ s.counters.current_transaction_id
      → Tells runs
          (record { counters = take_id s.counters; threads = before ++ stopped ∷ after })
          os
  stop-Tells e h = record {
    successes = told.successes;
    failures = told.failures;
    mistakes = told.mistakes;
    once = λ id. ground (
      arith,
      told.once id,
      inv.fixed,
      inv.taken,
      inv.stops,
      total-move inv small before after (runs_id id) claiming stopped e,
    );
  }

  finish-Tells :
      (id : ℕ) (result : ConnectResult)
      → s.threads ≡ before ++ running id ∷ after
      → result ≢ ConnectResult.invalid
      → Tells runs
          (record {
            counters = count_result result s.counters;
            threads = before ++ claiming ∷ after;
          })
          (record { id = id; result = result } ∷ os)
  unfolding total
  finish-Tells id result e h =
      let o : Outcome = record { id = id; result = result } in
      let room : counted s.counters + 1 < 2 ^ 32 = omega (
        arith,
        inv.balance,
        total-move inv small before after is_running (running id) claiming e,
      ) in
      let (s', f', m') = counts o s.counters h room in
      let same = (count_result-counted result s.counters h room).2 in
      record {
        successes = omega (arith, s', told.successes);
        failures = omega (arith, f', told.failures);
        mistakes = omega (arith, m', told.mistakes);
        once = λ i. ground (
          arith,
          told.once i,
          same,
          total-move inv small before after (runs_id i) (running id) claiming e,
        );
      }

Step-Tells :
    {runs : ℕ} {s t : System} {os : List Outcome}
    → Inv runs s
    → runs + processor_count + 1 < 2 ^ 32
    → Tells runs s os
    → (st : Step s t) → Tells runs t (outcome st ++ os)
Step-Tells inv small told (move before after e (claim h)) =
    claim-Tells inv small told before after e h
Step-Tells inv small told (move before after e (stop h)) =
    stop-Tells inv small told before after e h
Step-Tells inv small told (move before after e (finish {id = id} result h)) =
    finish-Tells inv small told before after id result e h

-- However the threads interleave, the three counters are the numbers of runs that returned a success,
-- a failure and a mistake, and each transaction id that has been taken below the number of runs asked
-- for belongs to one run, which has returned once or is under way in one thread; no other id has been
-- used. The runs and threads must fit 32 bits.
pub counters_tell_outcomes :
    (runs : ℕ) (s : System)
    → runs + processor_count + 1 < 2 ^ 32
    → (r : Reach runs s) → Tells runs s (outcomes r)
counters_tell_outcomes runs s small started = Tells-start runs
counters_tell_outcomes runs s small (later {s = s'} r st) =
    Step-Tells (Reach-Inv small r) small (counters_tell_outcomes runs s' small r) st
