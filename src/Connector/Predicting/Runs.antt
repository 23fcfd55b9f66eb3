-- ===== src/Connector/Predicting/Runs.antt =====
-- The loop of `connect` in p2p_ps_connector.h: that it ends, and what its results say.
use p2p_ps_stun.Prelude.{
  ◌≤◌, ◌≡◌, ◌⊎◌, subst, inl, inr, refl, true, false, Bool-cases, List, [], ◌∷◌, ◌++◌, length, All,
  arith,
}
use p2p_ps_stun.Double.{Double}
use p2p_ps_stun.Connector.Types.{ConnectResult}
use p2p_ps_stun.Connector.Predicting.{
  Config, Loop, Round, After, goes_on, returns, attempts, use_attempt, round, is_over, result_of,
  run, Connecting, returned,
}
use p2p_ps_stun.Connector.Predicting.Rounds.{
  IsSilent, round-IsSilent, IsCoherent, Then, round-IsCoherent,
}

pub not_over : (l : Loop) → is_over l ≡ false → l.connection_established ≡ false
unfolding is_over
not_over l h = ground arith

abbrev pub Returns : Connecting → Type 0
Returns k = (q : ConnectResult) × (l : Loop) × (k ≡ returned q l)

module _ (f d : Double) where
  pub run-over :
      (c : Config) (l : Loop) (rs : List (Round d))
      → is_over l ≡ true
      → run f d c l rs ≡ returned (result_of l.state) l
  unfolding run
  run-over c l [] h = rw h
  run-over c l (r ∷ rs) h = rw h

  pub run-goes_on :
      (c : Config) (l l' : Loop) (r : Round d) (rs : List (Round d))
      → is_over l ≡ false
      → round f d c r l ≡ goes_on l'
      → run f d c l (r ∷ rs) ≡ run f d c l' rs
  unfolding run
  run-goes_on c l l' r rs h e = rw (h, e, run)

  pub run-returns :
      (c : Config) (l l' : Loop) (q : ConnectResult) (r : Round d) (rs : List (Round d))
      → is_over l ≡ false
      → round f d c r l ≡ returns q l'
      → run f d c l (r ∷ rs) ≡ returned q l'
  unfolding run
  run-returns c l l' q r rs h e = rw (h, e, run)

  silence :
      (c : Config) (l : Loop) (qs : List (Round d))
      → All (IsSilent f d) qs
      → l.attempts_left ≤ length qs
      → Returns (run f d c l qs)
  unfolding is_over
  silence c l [] q h = (_, l, run-over c l [] (ground arith))
  silence c l (r ∷ qs) q h = elim (Bool-cases (is_over l)) [
    | inl over ↦ (_, l, run-over c l (r ∷ qs) over)
    | inr more ↦
        rw (run-goes_on c l (use_attempt l) r qs more (round-IsSilent f d c r l q.0))
          (silence c (use_attempt l) qs q.1 (omega arith))
  ]

  -- To go on after a round, know what it leads to.
  pub After-cases :
      (a : After)
      → ((l : Loop) × (a ≡ goes_on l)) ⊎ ((q : ConnectResult) × (l : Loop) × (a ≡ returns q l))
  After-cases (goes_on l) = inl (l, refl)
  After-cases (returns q l) = inr (q, l, refl)

  pub next-IsCoherent :
      (c : Config) (r : Round d) (l l' : Loop)
      → is_over l ≡ false
      → IsCoherent l
      → round f d c r l ≡ goes_on l'
      → IsCoherent l'
  next-IsCoherent c r l l' more v e =
      subst (Then IsCoherent) e (round-IsCoherent f d c r l (not_over l more) v)

  -- Whatever comes first, the loop has returned after five further rounds in which `select` reports
  -- nothing.
  pub run-Returns :
      (c : Config) (l : Loop) (rs qs : List (Round d))
      → IsCoherent l
      → All (IsSilent f d) qs
      → attempts ≤ length qs
      → Returns (run f d c l (rs ++ qs))
  run-Returns c l [] qs v q n = silence c l qs q (omega (arith, v.few))
  run-Returns c l (r ∷ rs) qs v q n = elim (Bool-cases (is_over l)) [
    | inl over ↦ (_, l, run-over c l (r ∷ (rs ++ qs)) over)
    | inr more ↦ elim (After-cases (round f d c r l)) [
      | inl (l', e) ↦
          rw (run-goes_on c l l' r (rs ++ qs) more e)
            (run-Returns c l' rs qs (next-IsCoherent c r l l' more v e) q n)
      | inr (w, l', e) ↦ (w, l', run-returns c l l' w r (rs ++ qs) more e)
    ]
  ]
