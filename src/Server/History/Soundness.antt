-- ===== src/Server/History/Soundness.antt =====
-- What holds of the transactions and the replies of udp_p2p_server.h after any sequence of datagrams.
use p2p_ps_stun.Prelude.{
  ℕ, ◌≡◌, ◌≢◌, ◌⊎◌, refl, ◌∙◌, ap, inl, inr, Bool-cases, Option, none, some, List, [], ◌∷◌, ==_refl,
  All,
}
use p2p_ps_stun.Server.Types.{PsTransaction, Server, Sent, Datagram}
use p2p_ps_stun.Server.Prediction.{
  on_ps_bind_request, ps_request_id, Update, waiting, complete, ps_replies,
}
use p2p_ps_stun.Server.Prediction.Invariant.{
  IsWellFormed, IsMatched, IsFine, update-IsFine, new_transaction-IsWellFormed,
}
use p2p_ps_stun.Server.Prediction.Machine.{
  machine, outcome, lookup, sent-on_ps_bind_request, lookup-on_ps_bind_request,
}
use p2p_ps_stun.Server.Loop.{on_message, serve}
use p2p_ps_stun.Server.History.Isolation.{concerns, ack_to, lookup-on_message}

-- A datagram has a sender with an address.
abbrev pub HasSender : Datagram → Type 0
HasSender d = d.peer_addr.addr ≢ 0

abbrev pub Fits : Option PsTransaction → Type 0
Fits none = Unit
Fits (some tr) = IsWellFormed tr

-- Every stored transaction is well formed.
abbrev pub IsSound : Server → Type 0
IsSound s = (id : ℕ) → Fits (lookup id s)

outcome-Fits : (u : Update) → IsFine u → Fits (outcome u).0
unfolding outcome
outcome-Fits (waiting tr) h = h
outcome-Fits (complete tr) h = tt

machine-Fits :
    (o : Option PsTransaction) (d : Datagram) → HasSender d → Fits o → Fits (machine o d).0
unfolding machine
machine-Fits none d h f = new_transaction-IsWellFormed d.peer_addr d.check_time h
machine-Fits (some tr) d h f =
    outcome-Fits _ (update-IsFine tr d.peer_addr d.check_time d.stamp_time h f)

on_message-IsSound :
    (s : Server) (d : Datagram) → HasSender d → IsSound s → IsSound (on_message s d).0
on_message-IsSound s d h sound id = elim (Bool-cases (concerns id d)) [
  | inl e ↦ rw (rw e at (lookup-on_message id s d)) (machine-Fits (lookup id s) d h (sound id))
  | inr e ↦ rw (rw e at (lookup-on_message id s d)) (sound id)
]

-- The transactions stay well formed under every sequence of datagrams that have a sender address.
pub serve-IsSound :
    (s : Server) (ds : List Datagram) → All HasSender ds → IsSound s → IsSound (serve s ds).0
unfolding serve
serve-IsSound s [] h sound = sound
serve-IsSound s (d ∷ ds) h sound =
    serve-IsSound (on_message s d).0 ds h.1 (on_message-IsSound s d h.0 sound)

-- What the machine of one id sends: nothing, or the two replies of a matched transaction, which it
-- then forgets.
abbrev pub Answers : Option PsTransaction × List Sent → Type 0
Answers r =
    (r.1 ≡ []) ⊎ ((tr : PsTransaction) × IsMatched tr × (r.1 ≡ ps_replies tr) × (r.0 ≡ none))

outcome-Answers : (u : Update) → IsFine u → Answers (outcome u)
unfolding outcome
outcome-Answers (waiting tr) h = inl refl
outcome-Answers (complete tr) h = inr (tr, h, refl, refl)

machine-Answers :
    (o : Option PsTransaction) (d : Datagram) → HasSender d → Fits o → Answers (machine o d)
unfolding machine
machine-Answers none d h f = inl refl
machine-Answers (some tr) d h f =
    outcome-Answers _ (update-IsFine tr d.peer_addr d.check_time d.stamp_time h f)

-- A ps_bind_request with a sender address, at a server whose transactions are well formed, is
-- acknowledged through the socket that it came in by. Either nothing else is sent; or the two replies
-- of a transaction are sent in which each of two clients with different hosts has both addresses,
-- all of a client's addresses on one host, and that transaction is gone.
pub ps_request_answers :
    (s : Server) (d : Datagram)
    → HasSender d
    → IsSound s
    → ((on_ps_bind_request s d).1 ≡ ack_to d ∷ [])
      ⊎ ((tr : PsTransaction) × IsMatched tr
          × ((on_ps_bind_request s d).1 ≡ ack_to d ∷ ps_replies tr)
          × (lookup (ps_request_id d.msg) (on_ps_bind_request s d).0 ≡ none))
ps_request_answers s d h sound =
    let id = ps_request_id d.msg in
    let sent = sent-on_ps_bind_request s d in
    let after = rw (==_refl id) at (lookup-on_ps_bind_request id s d) in
    elim (machine-Answers (lookup id s) d h (sound id)) [
      | inl quiet ↦ inl (sent ∙ ap (λ l. ack_to d ∷ l) quiet)
      | inr (tr, m, r, gone) ↦ inr (tr, m, sent ∙ ap (λ l. ack_to d ∷ l) r, after ∙ gone)
    ]
