-- ===== src/Runner.antt =====
-- `statistical_runner` and `statistical_runner_ps` of P2P_PS/sources/client/src/main.cpp: threads that
-- share counters and run one connection after the other. The two differ in the connector alone.
pub mod Invariant
pub mod Results
pub mod Ending
pub mod Report
pub mod Outcomes
mod Examples
use p2p_ps_stun.Prelude.{
  ℕ, zero, suc, ◌+◌, ◌%◌, ◌^◌, ◌<◌, ◌≤◌, ◌≢◌, ◌≡◌, List, [], ◌∷◌, ◌++◌, replicate,
}
use p2p_ps_stun.Connector.Types.{
  ConnectResult, connection_successful, connection_failed_no_server_match_in_time, connection_error,
  connection_failed,
}

-- The shared members.
pub record Counters : Type 0 where
  pub run_count : ℕ
  pub successfull_runs : ℕ
  pub failed_runs : ℕ
  pub programm_mistakes : ℕ
  pub current_transaction_id : ℕ

-- `++` on a `uint32_t`.
abbrev pub next : ℕ → ℕ
next n = (n + 1) % 2 ^ 32

-- The constructor, and `run_count = runs` of `run`.
abbrev pub new_counters : ℕ → Counters
new_counters runs = record {
  run_count = runs;
  successfull_runs = 0;
  failed_runs = 0;
  programm_mistakes = 0;
  current_transaction_id = 0;
}

-- The `switch` over the result of a connection.
unfoldable pub count_result : ConnectResult → Counters → Counters
count_result connection_successful c = record c { successfull_runs = next c.successfull_runs }
count_result connection_failed_no_server_match_in_time c = record c {
  programm_mistakes = next c.programm_mistakes;
}
count_result connection_error c = record c { programm_mistakes = next c.programm_mistakes }
count_result connection_failed c = record c { failed_runs = next c.failed_runs }
count_result ConnectResult.invalid c = c

-- Where a thread stands in `test_thread_main`.
pub data Thread : Type 0 where
  claiming : Thread
  running : ℕ → Thread
  stopped : Thread

pub record System : Type 0 where
  pub counters : Counters
  pub threads : List Thread

abbrev pub take_id : Counters → Counters
take_id c = record c { current_transaction_id = next c.current_transaction_id }

-- One step of one thread: it takes the next id and starts the run or stops, or its connection
-- returns.
pub data Move (c : Counters) : Thread → Counters → Thread → Type 0 where
  claim :
      c.current_transaction_id < c.run_count
      → Move c claiming (take_id c) (running c.current_transaction_id)
  stop : c.run_count ≤ c.current_transaction_id → Move c claiming (take_id c) stopped
  finish :
      {id : ℕ} (result : ConnectResult)
      → result ≢ ConnectResult.invalid
      → Move c (running id) (count_result result c) claiming

-- Any thread may take the next step.
pub data Step (s : System) : System → Type 0 where
  move :
      (before : List Thread) {t t' : Thread} (after : List Thread) {c : Counters}
      → s.threads ≡ before ++ t ∷ after
      → Move s.counters t c t'
      → Step s (record { counters = c; threads = before ++ t' ∷ after })

abbrev pub processor_count : ℕ
processor_count = 16

-- `run`, with its threads started.
abbrev pub start : ℕ → System
start runs = record { counters = new_counters runs; threads = replicate processor_count claiming }

pub data Reach (runs : ℕ) : System → Type 0 where
  started : Reach runs (start runs)
  later : {s t : System} → Reach runs s → Step s t → Reach runs t
