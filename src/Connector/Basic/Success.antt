-- ===== src/Connector/Basic/Success.antt =====
-- When `connect` of p2p_connector.h succeeds.
use p2p_ps_stun.Prelude.{
  ◌≡◌, refl, subst, ◌∙◌, sym, ap, Bool-cases, inl, inr, ◌⊎◌, true, false, List, [], ◌∷◌, ◌++◌,
  arith,
}
use mathlib.Core.Bool.{false≢true}
use p2p_ps_stun.Socket.{UdpSocket, wait_receive, send}
use p2p_ps_stun.Connector.Types.{
  ConnectResult, connection_successful, connection_error, State, connected, Outgoing, Event,
}
use p2p_ps_stun.Connector.Basic.{
  Config, Loop, round, Progress, waiting, finished, is_over, run, result_of, Greeting, Connecting,
  returned, looping, greet, finish, proceed, connect,
}
use p2p_ps_stun.Connector.Basic.Rounds.{Accepts, round-Accepts, IsCoherent, round-IsCoherent}
use p2p_ps_stun.Connector.Basic.Termination.{run-over, run-next}

-- The loop after some events, none of which ended it.
unfoldable pub loop_after : Config → Loop → List Event → Loop
loop_after c l [] = l
loop_after c l (e ∷ es) = loop_after c (round c e l) es

-- Some event of the list was accepted, in the state that the events before it led to.
pub record WasAccepted (c : Config) (l : Loop) (es : List Event) : Type 0 where
  pub past : List Event
  pub event : Event
  pub rest : List Event
  pub split : es ≡ past ++ event ∷ rest
  pub accepts : Accepts c event (loop_after c l past)

later :
    {c : Config} {l : Loop} {es : List Event} (e : Event)
    → WasAccepted c (round c e l) es
    → WasAccepted c l (e ∷ es)
unfolding loop_after
later e w = record {
  past = e ∷ w.past;
  event = w.event;
  rest = w.rest;
  split = ap (λ l. e ∷ l) w.split;
  accepts = w.accepts;
}

result_of-successful : (s : State) → result_of s ≡ connection_successful → s ≡ connected
unfolding result_of
result_of-successful s h = ground arith

pub finished-injective : {l l' : Loop} → Progress.finished l ≡ finished l' → l ≡ l'
finished-injective h = cc

pub run-nil : (c : Config) (l l' : Loop) → run c l [] ≡ finished l' → l ≡ l'
unfolding run
run-nil c l l' h = ground arith

run-WasAccepted :
    (c : Config) (l : Loop) (es : List Event) (l' : Loop)
    → l.connection_established ≡ false
    → run c l es ≡ finished l'
    → l'.connection_established ≡ true
    → WasAccepted c l es
unfolding loop_after
run-WasAccepted c l [] l' down h up =
    absurd (false≢true (sym down ∙ ap (λ k. k.connection_established) (run-nil c l l' h) ∙ up))
run-WasAccepted c l (e ∷ es) l' down h up = elim (Bool-cases (is_over l)) [
  | inl over ↦
      let same = finished-injective (sym (run-over c l (e ∷ es) over) ∙ h) in
      absurd (false≢true (sym down ∙ ap (λ k. k.connection_established) same ∙ up))
  | inr more ↦ elim (Bool-cases (round c e l).connection_established) [
    | inl now ↦ record {
      past = [];
      event = e;
      rest = es;
      split = refl;
      accepts = round-Accepts c e l down now;
    }
    | inr still ↦
        later e (run-WasAccepted c (round c e l) es l' still (sym (run-next c l e es more) ∙ h) up)
  ]
]

pub not_over : (l : Loop) → is_over l ≡ false → l.connection_established ≡ false
unfolding is_over
not_over l h = ground arith

run-IsCoherent :
    (c : Config) (l : Loop) (es : List Event) (l' : Loop)
    → IsCoherent l
    → run c l es ≡ finished l'
    → IsCoherent l'
run-IsCoherent c l [] l' v h = subst IsCoherent (run-nil c l l' h) v
run-IsCoherent c l (e ∷ es) l' v h = elim (Bool-cases (is_over l)) [
  | inl over ↦ subst IsCoherent (finished-injective (sym (run-over c l (e ∷ es) over) ∙ h)) v
  | inr more ↦
      run-IsCoherent c (round c e l) es l' (round-IsCoherent c e l (not_over l more) v)
        (sym (run-next c l e es more) ∙ h)
]

pub greet-down :
    (c : Config) (s : UdpSocket) (g : Greeting) (l : Loop)
    → greet c s g ≡ looping l
    → (l.connection_established ≡ false) × IsCoherent l
unfolding greet wait_receive send
greet-down c s g l h = ground arith

finish-successful :
    (p : Progress) (out : List Outgoing)
    → finish p ≡ returned connection_successful out
    → (l : Loop) × (p ≡ finished l) × (l.state ≡ connected)
unfolding finish
finish-successful (waiting l) out h = ground arith
finish-successful (finished l) out h = (l, refl, result_of-successful l.state (ground arith))

established : (l : Loop) → IsCoherent l → l.state ≡ connected → l.connection_established ≡ true
established l v h = ground arith

greet-returned :
    (c : Config) (s : UdpSocket) (g : Greeting) (r : ConnectResult) (out : List Outgoing)
    → greet c s g ≡ returned r out
    → r ≡ connection_error
unfolding greet
greet-returned c s g r out h = ground arith

proceed-cases :
    (c : Config) (es : List Event) (k : Connecting) (r : ConnectResult) (out : List Outgoing)
    → proceed c es k ≡ returned r out
    → (k ≡ returned r out) ⊎ ((l : Loop) × (k ≡ looping l) × (finish (run c l es) ≡ returned r out))
unfolding proceed
proceed-cases c es (returned q o) r out h = inl h
proceed-cases c es (looping l) r out h = inr (l, refl, h)

-- A result of `connect` is an error from before the loop, or the loop's.
pub connect-cases :
    (c : Config) (s : UdpSocket) (g : Greeting) (es : List Event) (r : ConnectResult)
    (out : List Outgoing)
    → connect c s g es ≡ returned r out
    → (r ≡ connection_error)
      ⊎ ((l : Loop) × (greet c s g ≡ looping l) × (finish (run c l es) ≡ returned r out))
unfolding connect
connect-cases c s g es r out h = elim (proceed-cases c es (greet c s g) r out h) [
  | inl early ↦ inl (greet-returned c s g r out early)
  | inr late ↦ inr late
]

-- If `connect` succeeds, its greeting ended in the loop, and some later event was accepted: a peer's
-- request with the own transaction id, or a response from the socket's target at that time.
pub connect_success :
    (c : Config) (s : UdpSocket) (g : Greeting) (es : List Event) (out : List Outgoing)
    → connect c s g es ≡ returned connection_successful out
    → (l : Loop) × (greet c s g ≡ looping l) × WasAccepted c l es
connect_success c s g es out h = elim (connect-cases c s g es _ out h) [
  | inl early ↦ cc
  | inr (l, greeted, ends) ↦
      let (l', over, up) = finish-successful (run c l es) out ends in
      let (down, fine) = greet-down c s g l greeted in
      (
        l,
        greeted,
        run-WasAccepted c l es l' down over
            (established l' (run-IsCoherent c l es l' fine over) up),
      )
]
