-- ===== src/Runner/Report.antt =====
-- What the runners of main.cpp print when all their threads have ended.
use p2p_ps_stun.Prelude.{ℕ, ◌+◌, ◌-◌, ◌%◌, ◌^◌, ◌<◌, ◌≡◌, arith}
use p2p_ps_stun.Runner.{Counters, System, processor_count, Reach}
use p2p_ps_stun.Runner.Results.{AllStopped, every_run_is_counted}

-- The numbers printed. The rate is `succeeded` divided by `rated`.
pub record Report : Type 0 where
  pub runs : ℕ
  pub succeeded : ℕ
  pub failed : ℕ
  pub errored : ℕ
  pub rated : ℕ

unfoldable pub report : ℕ → Counters → Report
report runs c = record {
  runs = runs;
  succeeded = c.successfull_runs;
  failed = c.failed_runs;
  errored = c.programm_mistakes;
  rated = (runs + 2 ^ 32 - c.programm_mistakes) % 2 ^ 32;
}

-- When all threads have stopped, the successes, failures and errors that are printed add up to the
-- runs asked for, and the rate is the successes among the runs that succeeded or failed, if the runs
-- and threads fit 32 bits.
pub report_adds_up :
    (runs : ℕ) (s : System)
    → runs + processor_count + 1 < 2 ^ 32
    → Reach runs s
    → AllStopped s.threads
    → let r = report runs s.counters in
      (r.succeeded + r.failed + r.errored ≡ r.runs) × (r.rated ≡ r.succeeded + r.failed)
unfolding report
report_adds_up runs s small r h =
    let all = every_run_is_counted runs s small r h in (all, omega (arith, all))
