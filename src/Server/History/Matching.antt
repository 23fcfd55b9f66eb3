-- ===== src/Server/History/Matching.antt =====
-- Four requests of two clients, through the ps_bind_request handler of udp_p2p_server.h.
use p2p_ps_stun.Prelude.{
  ℕ, ◌+◌, ◌^◌, ◌≤◌, ◌<◌, ◌≡◌, ◌≢◌, ◌∙◌, ap, ap₂, ◌⊎◌, inl, inr, true, Option, none, some, List, [],
  ◌∷◌, arith,
}
use p2p_ps_stun.Wire.{SockaddrIn}
use p2p_ps_stun.Wire.MessageType
use p2p_ps_stun.Server.Types.{PsTransaction, new_transaction, socket_0, Sent, Datagram, Server}
use p2p_ps_stun.Server.Prediction.{update, ps_replies, expiry}
use p2p_ps_stun.Server.Prediction.Machine.{machine, lookup}
use p2p_ps_stun.Server.Loop.{on_message, serve}
use p2p_ps_stun.Server.History.Isolation.{
  track, only, concerns, ack_to, lookup-serve, lookup-on_message, sent-on_message,
}

-- Two requests of the host of `a1` and two of another host, all within the term that the request
-- `a1` starts.
pub record Meeting (a1 a2 b1 b2 : Datagram) : Type 0 where
  pub a_host : a1.peer_addr.addr ≡ a2.peer_addr.addr
  pub b_host : b1.peer_addr.addr ≡ b2.peer_addr.addr
  pub a_known : a1.peer_addr.addr ≢ 0
  pub b_known : b1.peer_addr.addr ≢ 0
  pub two_hosts : a1.peer_addr.addr ≢ b1.peer_addr.addr
  pub a2_in_time : a2.check_time ≤ a1.check_time + expiry
  pub b1_in_time : b1.check_time ≤ a1.check_time + expiry
  pub b2_in_time : b2.check_time ≤ a1.check_time + expiry
  pub small : a1.check_time + expiry < 2 ^ 64

-- What the two clients are told: the addresses and the times of the four requests.
abbrev pub meeting : Datagram → Datagram → Datagram → Datagram → PsTransaction
meeting a1 a2 b1 b2 = record {
  cl1_sk1 = a1.peer_addr;
  cl1_sk2 = a2.peer_addr;
  cl1_ts1 = a1.check_time;
  cl1_ts2 = a2.stamp_time;
  cl2_sk1 = b1.peer_addr;
  cl2_sk2 = b2.peer_addr;
  cl2_ts1 = b1.stamp_time;
  cl2_ts2 = b2.stamp_time;
}

module _ (a1 a2 b1 b2 : Datagram) (m : Meeting a1 a2 b1 b2) where
  open m use {
    a_host, b_host, a_known, b_known, two_hosts, a2_in_time, b1_in_time, b2_in_time, small,
  }

  in_turn : machine (track none (a1 ∷ b1 ∷ a2 ∷ [])) b2 ≡ (none, ps_replies (meeting a1 a2 b1 b2))
  unfolding track machine update new_transaction
  in_turn = ground arith

  one_by_one :
      machine (track none (a1 ∷ a2 ∷ b1 ∷ [])) b2 ≡ (none, ps_replies (meeting a1 a2 b1 b2))
  unfolding track machine update new_transaction
  one_by_one = ground arith

  first_last : machine (track none (a1 ∷ b1 ∷ b2 ∷ [])) a2 ≡ (some (meeting a1 a2 b1 b2), [])
  unfolding track machine update new_transaction
  first_last = ground arith

-- The state of an id when its requests so far are known, and what the next one does.
next_request :
    (id : ℕ) (s : Server) (ds seen : List Datagram) (d : Datagram)
    {r : Option PsTransaction × List Sent}
    → lookup id s ≡ none
    → only id ds ≡ seen
    → concerns id d ≡ true
    → machine (track none seen) d ≡ r
    → ((on_message (serve s ds).0 d).1 ≡ ack_to d ∷ r.1)
      × (lookup id (on_message (serve s ds).0 d).0 ≡ r.0)
next_request id s ds seen d fresh e c q =
    let old = lookup-serve id s ds ∙ ap₂ track fresh e in
    let moves = ap (λ o. machine o d) old ∙ q in
    (
      sent-on_message id (serve s ds).0 d c ∙ ap (λ p. ack_to d ∷ p.1) moves,
      rw c at (lookup-on_message id (serve s ds).0 d) ∙ ap (λ p. p.0) moves,
    )

-- A ps_bind_reply to `client` with the addresses that two requests came from, and two times.
abbrev pub introduces : SockaddrIn → Datagram → Datagram → ℕ → ℕ → Sent
introduces client d e t1 t2 = record {
  via = socket_0;
  msg = record {
    type = MessageType.ps_bind_reply;
    message = record { addr_one = d.peer_addr; addr_two = e.peer_addr; t1 = t1; t2 = t2 };
  };
  to = client;
}

-- Two clients of different hosts that ask twice each for an id that the server does not know, within
-- 30 seconds of the first request, the second client last: the last request is acknowledged, each
-- client's first address is sent both addresses of the other client with the times of their requests,
-- and the id is forgotten. The requests may stand among any others.
pub pair_is_introduced :
    (id : ℕ) (s : Server) (ds : List Datagram) (a1 a2 b1 b2 : Datagram)
    → Meeting a1 a2 b1 b2
    → lookup id s ≡ none
    → (only id ds ≡ a1 ∷ b1 ∷ a2 ∷ []) ⊎ (only id ds ≡ a1 ∷ a2 ∷ b1 ∷ [])
    → concerns id b2 ≡ true
    → ((on_message (serve s ds).0 b2).1
        ≡ ack_to b2
          ∷ introduces a1.peer_addr b1 b2 b1.stamp_time b2.stamp_time
          ∷ introduces b1.peer_addr a1 a2 a1.check_time a2.stamp_time
          ∷ [])
      × (lookup id (on_message (serve s ds).0 b2).0 ≡ none)
pair_is_introduced id s ds a1 a2 b1 b2 m fresh (inl e) c =
    next_request id s ds _ b2 fresh e c (in_turn a1 a2 b1 b2 m)
pair_is_introduced id s ds a1 a2 b1 b2 m fresh (inr e) c =
    next_request id s ds _ b2 fresh e c (one_by_one a1 a2 b1 b2 m)

-- Two clients of different hosts ask twice each for an id that the server does not know, within 30
-- seconds of the first request, and the first client's second request comes last: it is only
-- acknowledged, and the server keeps a transaction that has all four addresses.
pub first_client_last_stalls :
    (id : ℕ) (s : Server) (ds : List Datagram) (a1 a2 b1 b2 : Datagram)
    → Meeting a1 a2 b1 b2
    → lookup id s ≡ none
    → only id ds ≡ a1 ∷ b1 ∷ b2 ∷ []
    → concerns id a2 ≡ true
    → ((on_message (serve s ds).0 a2).1 ≡ ack_to a2 ∷ [])
      × (lookup id (on_message (serve s ds).0 a2).0 ≡ some (meeting a1 a2 b1 b2))
first_client_last_stalls id s ds a1 a2 b1 b2 m fresh e c =
    next_request id s ds _ a2 fresh e c (first_last a1 a2 b1 b2 m)
