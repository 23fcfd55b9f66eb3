-- ===== src/Server/Loop/Rounds.antt =====
-- `start` of udp_p2p_server.h: what a sequence of rounds amounts to, and when the loop is entered.
use p2p_ps_stun.Prelude.{
  ℤ, pos, minus_one, is_negative, is_minus_one, ◌≡◌, ◌⊎◌, refl, sym, ◌∙◌, ap, false, not, ◌&&◌,
  Option, none, some, List, [], ◌∷◌, ◌++◌, All, arith,
}
use mathlib.Core.List.{append_assoc, append-nil}
use p2p_ps_stun.Server.Types.{Server, Sent, Datagram}
use p2p_ps_stun.Server.Loop.{
  on_message, serve, Received, failed, datagram, Round, Listener, listening, poll_socket, poll,
  listen, Opening, opens,
}

-- A round in which nothing fails and the loop is not told to stop.
abbrev pub Arrives : Option Received → Type 0
Arrives none = Unit
Arrives (some failed) = ⊥
Arrives (some (datagram d)) = Unit

pub record IsQuiet (r : Round) : Type 0 where
  pub goes_on : r.sig_close ≡ false
  pub selected : is_negative r.status ≡ false
  pub first_arrives : Arrives r.first
  pub second_arrives : Arrives r.second

abbrev pub arrived : Option Received → List Datagram
arrived none = []
arrived (some failed) = []
arrived (some (datagram d)) = d ∷ []

-- The datagrams of the rounds, those of the first socket first in each round.
abbrev pub received : List Round → List Datagram
received [] = []
received (r ∷ rs) = (arrived r.first ++ arrived r.second) ++ received rs

abbrev after : List Sent → Server × List Sent → Listener
after out r = listening r.0 (out ++ r.1)

serve-append :
    (s : Server) (ds es : List Datagram)
    → serve s (ds ++ es)
      ≡ ((serve (serve s ds).0 es).0, (serve s ds).1 ++ (serve (serve s ds).0 es).1)
unfolding serve
serve-append s [] es = refl
serve-append s (d ∷ ds) es =
    let (s', out) = on_message s d in
    rw (serve-append s' ds es)
      (ap (λ l. ((serve (serve s' ds).0 es).0, l)) (sym (append_assoc out _ _)))

after-serve-append :
    (s : Server) (out : List Sent) (ds es : List Datagram)
    → after (out ++ (serve s ds).1) (serve (serve s ds).0 es) ≡ after out (serve s (ds ++ es))
after-serve-append s out ds es = rw (serve-append s ds es) (
    ap (λ l. listening (serve (serve s ds).0 es).0 l)
      (append_assoc out (serve s ds).1 (serve (serve s ds).0 es).1))

poll_socket-serve :
    (r : Option Received) (s : Server) (out : List Sent)
    → Arrives r
    → poll_socket r (listening s out) ≡ after out (serve s (arrived r))
unfolding poll_socket serve
poll_socket-serve none s out h = rw append-nil
poll_socket-serve (some failed) s out h = absurd h
poll_socket-serve (some (datagram d)) s out h = simp append-nil

after-nil : (s : Server) (out : List Sent) → listening s out ≡ after out (serve s [])
unfolding serve
after-nil s out = ap (listening s) (sym (append-nil out))

poll-serve :
    (r : Round) (s : Server) (out : List Sent)
    → IsQuiet r
    → poll r s out ≡ after out (serve s (arrived r.first ++ arrived r.second))
unfolding poll
poll-serve r s out q =
    rw (q.goes_on, q.selected, poll_socket-serve r.first s out q.first_arrives)
      (poll_socket-serve r.second _ _ q.second_arrives
        ∙ after-serve-append s out (arrived r.first) (arrived r.second))

-- While nothing fails and no signal comes, the receive loop has handled exactly the received
-- datagrams, one after the other, the first socket's before the second's in each round.
pub listen-serve :
    (s : Server) (out : List Sent) (rs : List Round)
    → All IsQuiet rs
    → listen (listening s out) rs
      ≡ listening (serve s (received rs)).0 (out ++ (serve s (received rs)).1)
unfolding listen
listen-serve s out [] q = after-nil s out
listen-serve s out (r ∷ rs) q =
    rw (poll-serve r s out q.0, listen)
      (listen-serve (serve s (arrived r.first ++ arrived r.second)).0
          (out ++ (serve s (arrived r.first ++ arrived r.second)).1) rs q.1
        ∙ after-serve-append s out (arrived r.first ++ arrived r.second) (received rs))

-- The results that `bind` is documented to give: 0, or -1 for a failure.
abbrev pub IsBindResult : ℤ → Type 0
IsBindResult r = (r ≡ pos 0) ⊎ (r ≡ minus_one)

opens_with :
    (a c : ℤ) {b d : ℤ}
    → IsBindResult b
    → IsBindResult d
    → opens
        (record { socket_1_result = a; bind_1_result = b; socket_2_result = c; bind_2_result = d })
      ≡ not (is_minus_one a) && not (is_minus_one c)
unfolding opens
opens_with a c h k = ground arith

-- Whether the server enters its loop depends on the two calls of `socket` alone: a failure of `bind`
-- is never noticed.
pub start_ignores_bind :
    (o : Opening)
    → IsBindResult o.bind_1_result
    → IsBindResult o.bind_2_result
    → opens o ≡ not (is_minus_one o.socket_1_result) && not (is_minus_one o.socket_2_result)
start_ignores_bind o h k = opens_with o.socket_1_result o.socket_2_result h k
