-- ===== src/Server/History/SameHost.antt =====
-- Two clients behind one address, at the ps_bind_request handler of udp_p2p_server.h.
use p2p_ps_stun.Prelude.{ℕ, ◌≡◌, ◌∙◌, ap, true, Option, none, some, List, [], ◌∷◌, All, arith}
use p2p_ps_stun.Server.Types.{PsTransaction, new_transaction, Server, Datagram}
use p2p_ps_stun.Server.Prediction.{update}
use p2p_ps_stun.Server.Prediction.Machine.{machine, lookup}
use p2p_ps_stun.Server.Loop.{on_message, serve}
use p2p_ps_stun.Server.History.Isolation.{
  only, concerns, ack_to, track, lookup-serve, sent-on_message,
}

abbrev pub IsFrom : ℕ → Datagram → Type 0
IsFrom host d = d.peer_addr.addr ≡ host

abbrev Begins : ℕ → Option PsTransaction → Type 0
Begins host none = Unit
Begins host (some tr) = tr.cl1_sk1.addr ≡ host

machine-Begins :
    (host : ℕ) (o : Option PsTransaction) (d : Datagram)
    → IsFrom host d
    → Begins host o
    → Begins host (machine o d).0 × ((machine o d).1 ≡ [])
unfolding machine update new_transaction
machine-Begins host none d f b = ground arith
machine-Begins host (some tr) d f b = ground arith

track-Begins :
    (host : ℕ) (o : Option PsTransaction) (ds : List Datagram)
    → All (IsFrom host) ds
    → Begins host o
    → Begins host (track o ds)
unfolding track
track-Begins host o [] f b = b
track-Begins host o (d ∷ ds) f b =
    track-Begins host (machine o d).0 ds f.1 (machine-Begins host o d f.0 b).0

-- While all requests for an id that the server did not know come from one host, each is acknowledged
-- and never answered, however many there are.
pub same_host_unanswered :
    (host id : ℕ) (s : Server) (ds : List Datagram) (d : Datagram)
    → lookup id s ≡ none
    → All (IsFrom host) (only id ds)
    → concerns id d ≡ true
    → IsFrom host d
    → (on_message (serve s ds).0 d).1 ≡ ack_to d ∷ []
same_host_unanswered host id s ds d fresh f c g =
    let begins = rw fresh at (track-Begins host (lookup id s) (only id ds) f (rw fresh tt)) in
    let quiet = (machine-Begins host _ d g begins).1 in
    sent-on_message id (serve s ds).0 d c
    ∙ ap (λ l. ack_to d ∷ l) (rw (lookup-serve id s ds, fresh) quiet)
