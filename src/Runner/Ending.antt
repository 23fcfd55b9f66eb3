-- ===== src/Runner/Ending.antt =====
-- Every schedule of the threads of main.cpp's runners ends.
use p2p_ps_stun.Prelude.{
  ℕ, suc, ◌+◌, ◌^◌, ◌<◌, ◌≤◌, ◌≡◌, ◌≢◌, ◌⊎◌, inl, inr, refl, ap, List, [], ◌∷◌, ◌++◌, arith,
}
use p2p_ps_stun.Connector.Types.{ConnectResult, connection_error}
use p2p_ps_stun.Runner.{
  Thread, claiming, running, stopped, System, processor_count, Reach, started, later, Step, move,
  claim, stop, finish,
}
use p2p_ps_stun.Runner.Invariant.{counted, count_result-counted, Reach-Inv}
use p2p_ps_stun.Runner.Results.{AllStopped}

-- The steps that a schedule has taken.
abbrev pub steps : {runs : ℕ} {s : System} → Reach runs s → ℕ
steps started = 0
steps (later r m) = suc (steps r)

steps-counted :
    {runs : ℕ} {s : System}
    → runs + processor_count + 1 < 2 ^ 32
    → (r : Reach runs s) → steps r ≡ s.counters.current_transaction_id + counted s.counters
steps-counted small started = refl
steps-counted small (later r (move before after e (claim h))) =
    omega (arith, steps-counted small r, Reach-Inv small r)
steps-counted small (later r (move before after e (stop h))) =
    omega (arith, steps-counted small r, Reach-Inv small r)
steps-counted small (later {s} r (move before after e (finish result h))) =
    let inv = Reach-Inv small r in
    let more = count_result-counted result s.counters h (omega (arith, inv)) in
    omega (arith, steps-counted small r, more)

below_or_not : (m n : ℕ) → (m < n) ⊎ (n ≤ m)
below_or_not m n = omega arith

other_than_invalid : connection_error ≢ ConnectResult.invalid
other_than_invalid e = ground (arith, e)

-- A thread that has not stopped.
record Busy (ts : List Thread) : Type 0 where
  before : List Thread
  thread : Thread
  after : List Thread
  split : ts ≡ before ++ thread ∷ after
  is_busy : thread ≢ stopped

stopped_or_not : (ts : List Thread) → AllStopped ts ⊎ Busy ts
stopped_or_not [] = inl tt
stopped_or_not (stopped ∷ ts) = elim (stopped_or_not ts) [
  | inl h ↦ inl (refl, h)
  | inr b ↦ inr (record {
    before = stopped ∷ b.before;
    thread = b.thread;
    after = b.after;
    split = ap (λ l. stopped ∷ l) b.split;
    is_busy = b.is_busy;
  })
]
stopped_or_not (claiming ∷ ts) = inr (record {
  before = [];
  thread = claiming;
  after = ts;
  split = refl;
  is_busy = λ e. ground (arith, e);
})
stopped_or_not (running id ∷ ts) = inr (record {
  before = [];
  thread = running id;
  after = ts;
  split = refl;
  is_busy = λ e. ground (arith, e);
})

module _ (s : System) (before : List Thread) (thread : Thread) (after : List Thread) where
  not_stuck : s.threads ≡ before ++ thread ∷ after → thread ≢ stopped → (s' : System) × Step s s'
  not_stuck e busy = go thread e busy
    where
      go : (t : Thread) → s.threads ≡ before ++ t ∷ after → t ≢ stopped → (s' : System) × Step s s'
      go stopped e busy = absurd (busy refl)
      go (running id) e busy = (_, move before after e (finish connection_error other_than_invalid))
      go claiming e busy =
          elim (below_or_not s.counters.current_transaction_id s.counters.run_count) [
            | inl h ↦ (_, move before after e (claim h))
            | inr h ↦ (_, move before after e (stop h))
          ]

-- However the threads interleave, and whatever their connections return, a schedule takes at most two
-- steps for each run and one for each thread, and it goes on until all threads have stopped, if the
-- runs and threads fit 32 bits.
pub every_schedule_ends :
    (runs : ℕ) (s : System) (r : Reach runs s)
    → runs + processor_count + 1 < 2 ^ 32
    → (steps r ≤ runs + runs + processor_count)
      × (AllStopped s.threads ⊎ ((s' : System) × Step s s'))
every_schedule_ends runs s r small =
    let inv = Reach-Inv small r in
    (
      omega (arith, steps-counted small r, inv),
      elim (stopped_or_not s.threads) [
        | inl h ↦ inl h
        | inr b ↦ inr (not_stuck s b.before b.thread b.after b.split b.is_busy)
      ],
    )
