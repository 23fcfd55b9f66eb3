-- ===== src/Runner/Invariant.antt =====
-- What the threads of main.cpp's statistical runners agree on.
use Prim.Native.Nat.{min}
use p2p_ps_stun.Prelude.{
  ℕ, ◌+◌, ◌^◌, ◌<◌, ◌≤◌, ◌≢◌, ◌≡◌, refl, ◌∙◌, List, ◌∷◌, ◌++◌, ◌==◌, if◌then◌else◌, total,
  total-middle, total-le, arith,
}
use p2p_ps_stun.Connector.Types.{ConnectResult}
use p2p_ps_stun.Runner.{
  Counters, count_result, Thread, claiming, running, stopped, System, take_id, claim, stop, finish,
  Step, move, processor_count, start, Reach, started, later,
}

abbrev pub is_running : Thread → ℕ
is_running (running _) = 1
is_running _ = 0

abbrev pub is_stopped : Thread → ℕ
is_stopped stopped = 1
is_stopped _ = 0

abbrev pub runs_id : ℕ → Thread → ℕ
runs_id id (running i) = if i == id then 1 else 0
runs_id id _ = 0

abbrev pub one : Thread → ℕ
one _ = 1

abbrev pub counted : Counters → ℕ
counted c = c.successfull_runs + c.failed_runs + c.programm_mistakes

pub record Inv (runs : ℕ) (s : System) : Type 0 where
  pub fixed : s.counters.run_count ≡ runs
  pub size : total one s.threads ≡ processor_count
  pub stops : total is_stopped s.threads ≤ processor_count
  pub taken : s.counters.current_transaction_id ≤ runs + total is_stopped s.threads
  pub exhausted : total is_stopped s.threads ≢ 0 → runs ≤ s.counters.current_transaction_id
  pub balance :
      counted s.counters + total is_running s.threads ≡ min s.counters.current_transaction_id runs
  pub unique : (id : ℕ) → total (runs_id id) s.threads ≤ 1
  pub past : (id : ℕ) → s.counters.current_transaction_id ≤ id → total (runs_id id) s.threads ≡ 0

Inv-start : (runs : ℕ) → Inv runs (start runs)
unfolding total
Inv-start runs = record {
  fixed = refl;
  size = refl;
  stops = omega arith;
  taken = omega arith;
  exhausted = λ h. absurd (h refl);
  balance = omega arith;
  unique = λ id. omega arith;
  past = λ id h. refl;
}

is_stopped-le : (t : Thread) → is_stopped t ≤ one t
is_stopped-le claiming = omega arith
is_stopped-le (running i) = omega arith
is_stopped-le stopped = omega arith

stopped-le : (ts : List Thread) → total is_stopped ts ≤ total one ts
stopped-le = total-le is_stopped one is_stopped-le

pub count_result-counted :
    (r : ConnectResult) (c : Counters)
    → r ≢ ConnectResult.invalid
    → counted c + 1 < 2 ^ 32
    → (counted (count_result r c) ≡ counted c + 1)
      × ((count_result r c).run_count ≡ c.run_count)
      × ((count_result r c).current_transaction_id ≡ c.current_transaction_id)
unfolding count_result
count_result-counted r c h k = ground arith

module _ {runs : ℕ} {s : System} (inv : Inv runs s) (small : runs + processor_count + 1 < 2 ^ 32)
    (before after : List Thread) where
  -- A sum before and after one thread's step.
  pub total-move :
      (w : Thread → ℕ) (t t' : Thread)
      → s.threads ≡ before ++ t ∷ after
      → total w (before ++ t' ∷ after) + w t ≡ total w s.threads + w t'
  total-move w t t' e =
      rw e (omega (arith, total-middle w before t after, total-middle w before t' after))

  record Moved (t t' : Thread) : Type 0 where
    ones : total one (before ++ t' ∷ after) ≡ total one s.threads
    stops :
        total is_stopped (before ++ t' ∷ after) + is_stopped t
        ≡ total is_stopped s.threads + is_stopped t'
    runners :
        total is_running (before ++ t' ∷ after) + is_running t
        ≡ total is_running s.threads + is_running t'
    ids :
        (id : ℕ)
        → total (runs_id id) (before ++ t' ∷ after) + runs_id id t
          ≡ total (runs_id id) s.threads + runs_id id t'
    room : total is_stopped (before ++ t' ∷ after) ≤ total one (before ++ t' ∷ after)

  moved : (t t' : Thread) → s.threads ≡ before ++ t ∷ after → Moved t t'
  moved t t' e = record {
    ones = omega (arith, total-move one t t' e);
    stops = total-move is_stopped t t' e;
    runners = total-move is_running t t' e;
    ids = λ id. total-move (runs_id id) t t' e;
    room = stopped-le (before ++ t' ∷ after);
  }

  claim-Inv :
      s.threads ≡ before ++ claiming ∷ after
      → s.counters.current_transaction_id < s.counters.run_count
      → Inv runs (record {
        counters = take_id s.counters;
        threads = before ++ running s.counters.current_transaction_id ∷ after;
      })
  claim-Inv e h =
      let m = moved claiming (running s.counters.current_transaction_id) e in
      record {
        fixed = inv.fixed;
        size = omega (arith, m, inv);
        stops = omega (arith, m, inv);
        taken = omega (arith, m, inv);
        exhausted = λ k. omega (arith, m, inv);
        balance = omega (arith, m, inv);
        unique = λ id. ground (arith, m.ids id, inv.unique id, inv.past id);
        past = λ id k. ground (arith, m.ids id, inv.past id, inv.fixed, inv.taken, inv.stops);
      }

  stop-Inv :
      s.threads ≡ before ++ claiming ∷ after
      → s.counters.run_count ≤ s.counters.current_transaction_id
      → Inv runs (record { counters = take_id s.counters; threads = before ++ stopped ∷ after })
  stop-Inv e h =
      let m = moved claiming stopped e in
      record {
        fixed = inv.fixed;
        size = omega (arith, m, inv);
        stops = omega (arith, m, inv);
        taken = omega (arith, m, inv);
        exhausted = λ k. omega (arith, m, inv);
        balance = omega (arith, m, inv);
        unique = λ id. omega (arith, m.ids id, inv.unique id);
        past = λ id k. omega (arith, m.ids id, inv.past id, inv.taken, inv.stops);
      }

  finish-Inv :
      (id : ℕ) (result : ConnectResult)
      → s.threads ≡ before ++ running id ∷ after
      → result ≢ ConnectResult.invalid
      → Inv runs (record {
        counters = count_result result s.counters;
        threads = before ++ claiming ∷ after;
      })
  finish-Inv id result e h =
      let m = moved (running id) claiming e in
      let (more, same_runs, same_id) =
        count_result-counted result s.counters h (omega (arith, m, inv)) in
      record {
        fixed = same_runs ∙ inv.fixed;
        size = omega (arith, m, inv);
        stops = omega (arith, m, inv);
        taken = omega (arith, m, inv, same_id);
        exhausted = λ k. omega (arith, m, inv, same_id);
        balance = omega (arith, m, inv, more, same_id);
        unique = λ i. ground (arith, m.ids i, inv.unique i);
        past = λ i k. ground (arith, m.ids i, inv.past i, same_id);
      }

Step-Inv :
    {runs : ℕ} {s t : System}
    → runs + processor_count + 1 < 2 ^ 32
    → Inv runs s
    → Step s t
    → Inv runs t
Step-Inv small inv (move before after e (claim h)) = claim-Inv inv small before after e h
Step-Inv small inv (move before after e (stop h)) = stop-Inv inv small before after e h
Step-Inv small inv (move before after e (finish {id = id} result h)) =
    finish-Inv inv small before after id result e h

pub Reach-Inv :
    {runs : ℕ} {s : System} → runs + processor_count + 1 < 2 ^ 32 → Reach runs s → Inv runs s
Reach-Inv {runs} small started = Inv-start runs
Reach-Inv small (later r st) = Step-Inv small (Reach-Inv small r) st
