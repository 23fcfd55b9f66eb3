-- ===== src/Connector/Basic/Outcome.antt =====
-- The other results of `connect` in p2p_connector.h, and who can move its target.
use mathlib.Core.List.{append-nil}
use p2p_ps_stun.Prelude.{
  ◌≤◌, ◌≡◌, ◌≢◌, ◌⊎◌, refl, subst, ◌∙◌, sym, Bool-cases, inl, inr, List, [], ◌∷◌, ◌++◌, length, All,
  arith,
}
use p2p_ps_stun.Wire.{zero_message, bind_reply, ntohl, transaction_id, stun_server_addr}
use p2p_ps_stun.Wire.MessageType
use p2p_ps_stun.Socket.{UdpSocket, wait_receive, send, set_target_address}
use p2p_ps_stun.Connector.Types.{
  ConnectResult, connection_failed_no_server_match_in_time, waiting_for_stun_reply, connected,
  Outgoing, Event, make_message, try_connect_to_client, reply_to_bind_request,
}
use p2p_ps_stun.Connector.Basic.{
  Config, Loop, attempts, round, Progress, waiting, finished, is_over, run, result_of, Greeting,
  Connecting, returned, looping, greet, finish, proceed, connect,
}
use p2p_ps_stun.Connector.Basic.Rounds.{Arrives, IsSilent, IsCoherent, round-IsCoherent}
use p2p_ps_stun.Connector.Basic.Termination.{run-over, run-next, run_ends}
use p2p_ps_stun.Connector.Basic.Success.{
  connect-cases, run-nil, finished-injective, not_over, greet-down,
}

-- The one message that `connect` sends before its loop.
abbrev pub first_request : Config → Outgoing
first_request c = record {
  msg = make_message MessageType.bind_request c.transaction_id zero_message;
  to = stun_server_addr c.stun_server_address;
}

-- Until the server's reply comes, nothing more is sent.
abbrev IsReserved : Config → Loop → Type 0
IsReserved c l = l.state ≡ waiting_for_stun_reply → l.sent ≡ first_request c ∷ []

round-IsReserved :
    (c : Config) (e : Event) (l : Loop)
    → l.state ≢ connected
    → IsReserved c l
    → IsReserved c (round c e l)
unfolding round wait_receive reply_to_bind_request try_connect_to_client send
round-IsReserved c e l h v k = ground (arith, append-nil l.sent)

-- A sender that may change the socket's target: the server by a bind_reply, or anybody by a request
-- with the connector's transaction id.
abbrev MayRedirect : Config → Event → Type 0
MayRedirect c e =
    ((e.reception.msg.type ≡ MessageType.bind_reply)
      × (e.reception.sender.addr ≡ (stun_server_addr c.stun_server_address).addr)
      × (e.reception.sender.port ≡ (stun_server_addr c.stun_server_address).port))
    ⊎ ((e.reception.msg.type ≡ MessageType.client_bind_request)
        × (ntohl (transaction_id (e.reception.msg.message)) ≡ c.transaction_id))

-- A round leaves the target alone, or it received a datagram that may change it; then the target is
-- the address in the server's reply, or the sender of the request.
round_redirects :
    (c : Config) (e : Event) (l : Loop)
    → ((round c e l).socket.target_address ≡ l.socket.target_address)
      ⊎ (Arrives e
          × MayRedirect c e
          × (((round c e l).socket.target_address ≡ bind_reply (e.reception.msg.message))
              ⊎ ((round c e l).socket.target_address ≡ e.reception.sender)))
unfolding round wait_receive reply_to_bind_request set_target_address
round_redirects c e l = ground arith

run-IsReserved :
    (c : Config) (l : Loop) (es : List Event) (l' : Loop)
    → IsCoherent l
    → IsReserved c l
    → run c l es ≡ finished l'
    → IsReserved c l'
run-IsReserved c l [] l' v k h = subst (IsReserved c) (run-nil c l l' h) k
run-IsReserved c l (e ∷ es) l' v k h = elim (Bool-cases (is_over l)) [
  | inl over ↦ subst (IsReserved c) (finished-injective (sym (run-over c l (e ∷ es) over) ∙ h)) k
  | inr more ↦
      let down = not_over l more in
      run-IsReserved c (round c e l) es l' (round-IsCoherent c e l down v)
        (round-IsReserved c e l (v.down down) k) (sym (run-next c l e es more) ∙ h)
]

greet-IsReserved :
    (c : Config) (s : UdpSocket) (g : Greeting) (l : Loop)
    → greet c s g ≡ looping l
    → IsReserved c l
unfolding greet
greet-IsReserved c s g l h w = ground arith

finish-no_match :
    (p : Progress) (out : List Outgoing)
    → finish p ≡ returned connection_failed_no_server_match_in_time out
    → (l : Loop) × (p ≡ finished l) × (l.state ≡ waiting_for_stun_reply) × (l.sent ≡ out)
unfolding finish result_of
finish-no_match (waiting l) out h = ground arith
finish-no_match (finished l) out h = (l, refl, ground arith, ground arith)

-- If `connect` reports that the server did not match the client in time, then all that it sent is
-- the one request to the server: no peer was contacted.
pub no_match_contacts_nobody :
    (c : Config) (s : UdpSocket) (g : Greeting) (es : List Event) (out : List Outgoing)
    → connect c s g es ≡ returned connection_failed_no_server_match_in_time out
    → out ≡ first_request c ∷ []
no_match_contacts_nobody c s g es out h = elim (connect-cases c s g es _ out h) [
  | inl early ↦ cc
  | inr (l, greeted, ends) ↦
      let (l', over, state, sent) = finish-no_match (run c l es) out ends in
      let fine = (greet-down c s g l greeted).1 in
      sym sent ∙ run-IsReserved c l es l' fine (greet-IsReserved c s g l greeted) over state
]

greet-attempts :
    (c : Config) (s : UdpSocket) (g : Greeting) (l : Loop)
    → greet c s g ≡ looping l
    → l.attempts_left ≤ attempts
unfolding greet
greet-attempts c s g l h = ground arith

abbrev pub Returns : Connecting → Type 0
Returns k = (r : ConnectResult) × (out : List Outgoing) × (k ≡ returned r out)

proceed-Returns :
    (c : Config) (es qs : List Event) (k : Connecting)
    → ((l : Loop) → k ≡ looping l → l.attempts_left ≤ attempts)
    → All IsSilent qs
    → attempts ≤ length qs
    → Returns (proceed c (es ++ qs) k)
unfolding proceed finish
proceed-Returns c es qs (returned r out) few q n = (r, out, refl)
proceed-Returns c es qs (looping l) few q n =
    let (l', over) = run_ends c l es qs (few l refl) q n in (result_of l'.state, l'.sent, rw over)

-- Whatever comes first, `connect` has returned after ten further rounds in which `select` reports
-- nothing.
pub connect_returns :
    (c : Config) (s : UdpSocket) (g : Greeting) (es qs : List Event)
    → All IsSilent qs
    → attempts ≤ length qs
    → Returns (connect c s g (es ++ qs))
unfolding connect
connect_returns c s g es qs q n =
    proceed-Returns c es qs (greet c s g) (λ l h. greet-attempts c s g l h) q n
