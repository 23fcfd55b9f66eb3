-- ===== src/Connector/Predicting/Results.antt =====
-- What each result of the loop in p2p_ps_connector.h says about the rounds.
use p2p_ps_stun.Prelude.{
  ◌≡◌, ◌≢◌, ◌⊎◌, ◌∙◌, sym, ap, subst, inl, inr, refl, true, false, Bool-cases, List, [], ◌∷◌, ◌++◌,
  arith,
}
use p2p_ps_stun.Double.{Double}
use p2p_ps_stun.Connector.Types.{
  ConnectResult, connection_successful, connection_failed,
  connection_failed_no_server_match_in_time,
}
use p2p_ps_stun.Connector.Predicting.{
  Config, Loop, Round, goes_on, round, is_over, result_of, run, returned,
}
use p2p_ps_stun.Connector.Predicting.Rounds.{
  IsCoherent, Then, round-IsCoherent, Accepts, Refuses, Cause, round-Cause,
}
use p2p_ps_stun.Connector.Predicting.Runs.{
  run-over, run-goes_on, run-returns, After-cases, next-IsCoherent,
}

module _ (f d : Double) (c : Config) where
  -- The rounds lead from one state of the loop to another.
  pub data Reach : Loop → List (Round d) → Loop → Type 0 where
    here : {l : Loop} → Reach l [] l
    step :
        {l l' l'' : Loop} {r : Round d} {rs : List (Round d)}
        → round f d c r l ≡ goes_on l'
        → Reach l' rs l''
        → Reach l (r ∷ rs) l''

  -- Some round met a condition, in the state that those before it led to.
  pub record Happened (P : Round d → Loop → Type 0) (l : Loop) (rs : List (Round d)) : Type 0 where
    pub past : List (Round d)
    pub now : Round d
    pub rest : List (Round d)
    pub state : Loop
    pub split : rs ≡ past ++ now ∷ rest
    pub reached : Reach l past state
    pub met : P now state

  -- Success by an accepted message, a failure by a refused reply of the server, and no match if the
  -- attempts are used up.
  abbrev pub Explains : Loop → List (Round d) → ConnectResult → Loop → Type 0
  Explains l rs q l' =
      ((q ≡ connection_successful) × Happened (Accepts f d c) l rs)
      ⊎ (((q ≡ connection_failed) × Happened (Refuses f d c) l rs)
          ⊎ ((q ≡ connection_failed_no_server_match_in_time)
              × (l'.attempts_left ≡ 0)
              × (l'.connection_established ≡ false)))

  first :
      (P : Round d → Loop → Type 0) (l : Loop) (r : Round d) (rs : List (Round d))
      → P r l
      → Happened P l (r ∷ rs)
  first P l r rs m = record {
    past = [];
    now = r;
    rest = rs;
    state = l;
    split = refl;
    reached = here;
    met = m;
  }

  after :
      (P : Round d → Loop → Type 0) (l l' : Loop) (r : Round d) (rs : List (Round d))
      → round f d c r l ≡ goes_on l'
      → Happened P l' rs
      → Happened P l (r ∷ rs)
  after P l l' r rs e w = record {
    past = r ∷ w.past;
    now = w.now;
    rest = w.rest;
    state = w.state;
    split = ap (λ t. r ∷ t) w.split;
    reached = step e w.reached;
    met = w.met;
  }

  Explains-after :
      (l l' : Loop) (r : Round d) (rs : List (Round d)) (q : ConnectResult) (k : Loop)
      → round f d c r l ≡ goes_on l'
      → Explains l' rs q k
      → Explains l (r ∷ rs) q k
  Explains-after l l' r rs q k e (inl (h, w)) = inl (h, after (Accepts f d c) l l' r rs e w)
  Explains-after l l' r rs q k e (inr (inl (h, w))) =
      inr (inl (h, after (Refuses f d c) l l' r rs e w))
  Explains-after l l' r rs q k e (inr (inr t)) = inr (inr t)

  -- The loop ends in the state where the attempts are used up.
  tired :
      (l l' : Loop) (rs : List (Round d)) (q : ConnectResult)
      → IsCoherent l
      → l.connection_established ≡ false
      → is_over l ≡ true
      → returned (result_of l.state) l ≡ returned q l'
      → Explains l rs q l'
  unfolding is_over result_of
  tired l l' rs q v down over e =
      inr (inr (ground (arith, v.down down), ground arith, ground arith))

  established :
      (l l' : Loop) (r : Round d) (rs : List (Round d)) (q : ConnectResult) (k : Loop)
      → Accepts f d c r l
      → IsCoherent l'
      → l'.connection_established ≡ true
      → run f d c l' rs ≡ returned q k
      → Explains l (r ∷ rs) q k
  unfolding result_of is_over
  established l l' r rs q k accepted v up e =
      let ends = sym (run-over f d c l' rs (rw up)) ∙ e in
      inl (ground (arith, v.up up), first (Accepts f d c) l r rs accepted)

  refused :
      (l m l' : Loop) (r : Round d) (rs : List (Round d)) (w q : ConnectResult)
      → Refuses f d c r l
      → w ≡ connection_failed
      → returned w m ≡ returned q l'
      → Explains l (r ∷ rs) q l'
  refused l m l' r rs w q refuses failed e =
      inr (inl (ground arith, first (Refuses f d c) l r rs refuses))

  run-nil :
      (l : Loop) (q : ConnectResult) (l' : Loop)
      → is_over l ≡ false
      → run f d c l [] ≢ returned q l'
  unfolding run
  run-nil l q l' more e = ground arith

  -- Every result of the loop, from a state where the connection is not established, has its reason
  -- in the rounds: success an accepted message, `connection_failed` an attempt that a reply of the
  -- server led to and that did not succeed, and no match that the attempts were used up.
  pub run-Explains :
      (l : Loop) (rs : List (Round d)) (q : ConnectResult) (l' : Loop)
      → IsCoherent l
      → l.connection_established ≡ false
      → run f d c l rs ≡ returned q l'
      → Explains l rs q l'
  run-Explains l [] q l' v down e = elim (Bool-cases (is_over l)) [
    | inl over ↦ tired l l' [] q v down over (sym (run-over f d c l [] over) ∙ e)
    | inr more ↦ absurd (run-nil l q l' more e)
  ]
  run-Explains l (r ∷ rs) q l' v down e = elim (Bool-cases (is_over l)) [
    | inl over ↦ tired l l' (r ∷ rs) q v down over (sym (run-over f d c l (r ∷ rs) over) ∙ e)
    | inr more ↦ elim (After-cases f d (round f d c r l)) [
      | inl (m, g) ↦
          let v' = next-IsCoherent f d c r l m more v g in
          let e' = sym (run-goes_on f d c l m r rs more g) ∙ e in
          elim (Bool-cases m.connection_established) [
            | inl up ↦
                established l m r rs q l'
                  (subst (Cause f d c r l) g (round-Cause f d c r l down) up) v' up e'
            | inr still ↦ Explains-after l m r rs q l' g (run-Explains m rs q l' v' still e')
          ]
      | inr (w, m, g) ↦
          refused l m l' r rs w q (subst (Cause f d c r l) g (round-Cause f d c r l down))
            (subst (Then IsCoherent) g (round-IsCoherent f d c r l down v))
            (sym (run-returns f d c l m w r rs more g) ∙ e)
    ]
  ]
