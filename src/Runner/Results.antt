-- ===== src/Runner/Results.antt =====
-- What the statistics of main.cpp's runners mean, in every interleaving of the threads.
use Prim.Native.Nat.{min}
use p2p_ps_stun.Prelude.{ℕ, ◌+◌, ◌^◌, ◌<◌, ◌≤◌, ◌≡◌, refl, List, [], ◌∷◌, All, total, arith}
use p2p_ps_stun.Runner.{Thread, stopped, System, processor_count, Reach}
use p2p_ps_stun.Runner.Invariant.{one, is_running, is_stopped, runs_id, counted, Reach-Inv}

-- However the threads interleave, no two threads run a connection with the same transaction id at a
-- time, and the runs counted so far are those begun less those under way, if the runs and threads fit
-- 32 bits.
runs_are_separate :
    (runs id : ℕ) (s : System)
    → runs + processor_count + 1 < 2 ^ 32
    → Reach runs s
    → (total (runs_id id) s.threads ≤ 1)
      × (counted s.counters + total is_running s.threads
          ≡ min s.counters.current_transaction_id runs)
runs_are_separate runs id s small r = ((Reach-Inv small r).unique id, (Reach-Inv small r).balance)

abbrev pub AllStopped : List Thread → Type 0
AllStopped = All (λ t. t ≡ stopped)

stopped-totals :
    (ts : List Thread)
    → AllStopped ts
    → (total is_running ts ≡ 0) × (total is_stopped ts ≡ total one ts)
unfolding total
stopped-totals [] h = (refl, refl)
stopped-totals (t ∷ ts) h = let (r, s) = stopped-totals ts h.1 in ground (arith, h.0, r, s)

-- When all threads have stopped, every run has been counted exactly once: the successes, the failures
-- and the mistakes add up to the number of runs asked for, if the runs and threads fit 32 bits.
pub every_run_is_counted :
    (runs : ℕ) (s : System)
    → runs + processor_count + 1 < 2 ^ 32
    → Reach runs s
    → AllStopped s.threads
    → counted s.counters ≡ runs
every_run_is_counted runs s small r h =
    let inv = Reach-Inv small r in
    let (quiet, all) = stopped-totals s.threads h in
    let over = inv.exhausted (omega (arith, all, inv.size)) in
    omega (arith, inv.balance, quiet, over)
