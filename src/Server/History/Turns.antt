-- ===== src/Server/History/Turns.antt =====
-- How many bind_reply messages udp_p2p_server.h sends over a history.
use p2p_ps_stun.Prelude.{
  ℕ, ◌+◌, ◌≤◌, ◌≡◌, refl, ap, inl, inr, Option, none, some, List, [], ◌∷◌, ◌++◌, Option-cases, find,
  ◌==◌, if◌then◌else◌, arith,
}
use p2p_ps_stun.Wire.{SockaddrIn}
use p2p_ps_stun.Wire.MessageType
use p2p_ps_stun.Server.Types.{PsTransaction, Server, new_server, Sent, Datagram}
use p2p_ps_stun.Server.Relay.{on_bind_request}
use p2p_ps_stun.Server.Relay.Pairing.{waiting_client, first_waits, second_pairs}
use p2p_ps_stun.Server.Prediction.{Update, waiting, complete, on_ps_bind_request, ps_request_id}
use p2p_ps_stun.Server.Prediction.Machine.{machine, outcome, lookup, sent-on_ps_bind_request}
use p2p_ps_stun.Server.Loop.{on_message, on_heartbeat, serve}
use p2p_ps_stun.Server.Loop.Dispatch.{on_message_cases}

-- The messages of one type among those sent, and among those received.
abbrev pub count_sent : ℕ → List Sent → ℕ
count_sent type [] = 0
count_sent type (m ∷ ms) = (if m.msg.type == type then 1 else 0) + count_sent type ms

abbrev pub count_received : ℕ → List Datagram → ℕ
count_received type [] = 0
count_received type (d ∷ ds) = (if d.msg.type == type then 1 else 0) + count_received type ds

abbrev pub clients : Option SockaddrIn → ℕ
clients none = 0
clients (some _) = 1

-- 1 while a client waits for its partner.
abbrev pub waits : Server → ℕ
waits s = clients (waiting_client s)

count_sent-append :
    (type : ℕ) (ms ns : List Sent)
    → count_sent type (ms ++ ns) ≡ count_sent type ms + count_sent type ns
count_sent-append type [] ns = omega arith
count_sent-append type (m ∷ ms) ns = omega (arith, count_sent-append type ms ns)

abbrev pub replies : List Sent → ℕ
replies = count_sent MessageType.bind_reply

-- One more or one fewer client waits, and two replies go out for two requests.
basic_turn :
    (s : Server) (d : Datagram)
    → replies (on_bind_request s d).1 + waits (on_bind_request s d).0 ≡ waits s + 1
basic_turn s d = elim (Option-cases (waiting_client s)) [
  | inl e ↦
      let (sent, next) = first_waits s d e in
      omega (arith, ap replies sent, ap clients next, ap clients e)
  | inr (a, e) ↦
      let (sent, next) = second_pairs s d a e in
      omega (arith, ap replies sent, ap clients next, ap clients e)
]

outcome-replies : (u : Update) → replies (outcome u).1 ≡ 0
unfolding outcome
outcome-replies (waiting t) = refl
outcome-replies (complete t) = refl

machine-replies : (o : Option PsTransaction) (d : Datagram) → replies (machine o d).1 ≡ 0
unfolding machine
machine-replies none d = refl
machine-replies (some t) d = outcome-replies _

waits-on_ps_bind_request : (s : Server) (d : Datagram) → waits (on_ps_bind_request s d).0 ≡ waits s
unfolding on_ps_bind_request
waits-on_ps_bind_request s d = refl

ps_turn :
    (s : Server) (d : Datagram)
    → replies (on_ps_bind_request s d).1 + waits (on_ps_bind_request s d).0 ≡ waits s
ps_turn s d = omega (
  arith,
  ap replies (sent-on_ps_bind_request s d),
  machine-replies (lookup (ps_request_id d.msg) s) d,
  waits-on_ps_bind_request s d,
)

-- A request adds one to the clients that wait or are told of a partner, another message none.
abbrev Turn : Server → Datagram → Server × List Sent → Type 0
Turn s d r = replies r.1 + waits r.0 ≡ waits s + count_received MessageType.bind_request (d ∷ [])

on_message-Turn : (s : Server) (d : Datagram) → Turn s d (on_message s d)
unfolding on_heartbeat
on_message-Turn s d =
    on_message_cases (Turn s d) s d (λ e. ground (arith, ps_turn s d))
      (λ e. ground (arith, basic_turn s d)) (λ h. ground arith) (λ h. ground arith)

serve-turns :
    (s : Server) (ds : List Datagram)
    → replies (serve s ds).1 + waits (serve s ds).0
      ≡ waits s + count_received MessageType.bind_request ds
unfolding serve
serve-turns s [] = omega arith
serve-turns s (d ∷ ds) = omega (
  arith,
  on_message-Turn s d,
  serve-turns (on_message s d).0 ds,
  count_sent-append MessageType.bind_reply (on_message s d).1 (serve (on_message s d).0 ds).1,
)

clients-le : (o : Option SockaddrIn) → clients o ≤ 1
clients-le none = omega arith
clients-le (some a) = omega arith

-- From its start, over any history, the server sends as many bind_reply messages as it received
-- bind_requests; or one fewer, while one client waits.
pub requests_are_answered :
    (ds : List Datagram)
    → (replies (serve new_server ds).1 + waits (serve new_server ds).0
        ≡ count_received MessageType.bind_request ds)
      × (waits (serve new_server ds).0 ≤ 1)
unfolding find
requests_are_answered ds = (omega (arith, serve-turns new_server ds), clients-le _)
