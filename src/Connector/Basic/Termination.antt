-- ===== src/Connector/Basic/Termination.antt =====
-- The loop of p2p_connector.h ends once ten rounds bring nothing.
use p2p_ps_stun.Prelude.{
  ◌≤◌, ◌≡◌, Bool-cases, inl, inr, true, false, List, [], ◌∷◌, ◌++◌, length, All, arith,
}
use p2p_ps_stun.Connector.Types.{Event}
use p2p_ps_stun.Connector.Basic.{Config, Loop, attempts, round, Progress, finished, is_over, run}
use p2p_ps_stun.Connector.Basic.Rounds.{IsSilent, round-IsSilent, round-attempts}

abbrev pub Ends : Progress → Type 0
Ends p = (l : Loop) × (p ≡ finished l)

pub run-over :
    (c : Config) (l : Loop) (es : List Event) → is_over l ≡ true → run c l es ≡ finished l
unfolding run
run-over c l [] h = rw h
run-over c l (e ∷ es) h = rw h

pub run-next :
    (c : Config) (l : Loop) (e : Event) (es : List Event)
    → is_over l ≡ false
    → run c l (e ∷ es) ≡ run c (round c e l) es
unfolding run
run-next c l e es h = rw h

silence :
    (c : Config) (l : Loop) (qs : List Event)
    → All IsSilent qs
    → l.attempts_left ≤ length qs
    → Ends (run c l qs)
unfolding is_over
silence c l [] q h = (l, run-over c l [] (ground arith))
silence c l (e ∷ qs) q h = elim (Bool-cases (is_over l)) [
  | inl over ↦ (l, run-over c l (e ∷ qs) over)
  | inr more ↦
      let step = round-IsSilent c e l q.0 in
      rw (run-next c l e qs more) (silence c (round c e l) qs q.1 (omega arith))
]

-- Whatever comes first, the loop has ended after ten further rounds in which `select` reports
-- nothing, if it starts with at most ten attempts.
pub run_ends :
    (c : Config) (l : Loop) (es qs : List Event)
    → l.attempts_left ≤ attempts
    → All IsSilent qs
    → attempts ≤ length qs
    → Ends (run c l (es ++ qs))
run_ends c l [] qs h q n = silence c l qs q (omega arith)
run_ends c l (e ∷ es) qs h q n = elim (Bool-cases (is_over l)) [
  | inl over ↦ (l, run-over c l (e ∷ (es ++ qs)) over)
  | inr more ↦
      rw (run-next c l e (es ++ qs) more)
        (run_ends c (round c e l) es qs (round-attempts c e l h) q n)
]
