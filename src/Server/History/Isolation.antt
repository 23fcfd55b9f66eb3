-- ===== src/Server/History/Isolation.antt =====
-- The transactions of `ps_transaction_client_map` do not disturb one another (udp_p2p_server.h).
use p2p_ps_stun.Prelude.{
  ℕ, ◌≡◌, refl, ◌∙◌, ap, inl, inr, Bool, true, ◌&&◌, Bool-cases, Option, List, [], ◌∷◌, ◌==◌,
  ==_iff, if◌then◌else◌, arith,
}
use p2p_ps_stun.Wire.MessageType
use p2p_ps_stun.Server.Types.{PsTransaction, Server, Sent, Datagram}
use p2p_ps_stun.Server.Relay.{ack_message, on_bind_request}
use p2p_ps_stun.Server.Prediction.{ps_request_id}
use p2p_ps_stun.Server.Prediction.Machine.{
  machine, lookup, lookup-on_ps_bind_request, sent-on_ps_bind_request,
}
use p2p_ps_stun.Server.Loop.{on_message, serve}

-- A `ps_bind_request` for the transaction `id`.
abbrev pub concerns : ℕ → Datagram → Bool
concerns id d = d.msg.type == MessageType.ps_bind_request && ps_request_id d.msg == id

abbrev pub only : ℕ → List Datagram → List Datagram
only id [] = []
only id (d ∷ ds) = if concerns id d then d ∷ only id ds else only id ds

lookup-on_bind_request :
    (id : ℕ) (s : Server) (d : Datagram) → lookup id (on_bind_request s d).0 ≡ lookup id s
unfolding on_bind_request
lookup-on_bind_request id s d = refl

-- A message moves the transaction that it concerns, and no other.
pub lookup-on_message :
    (id : ℕ) (s : Server) (d : Datagram)
    → lookup id (on_message s d).0
      ≡ (if concerns id d then (machine (lookup id s) d).0 else lookup id s)
unfolding on_message
lookup-on_message id s d = ground (
  arith,
  lookup-on_ps_bind_request id s d,
  lookup-on_bind_request id s d,
  ==_iff (ps_request_id d.msg) id,
)

abbrev pub ack_to : Datagram → Sent
ack_to d = record { via = d.handle; msg = ack_message; to = d.peer_addr }

-- What is sent for a message that concerns `id`.
pub sent-on_message :
    (id : ℕ) (s : Server) (d : Datagram)
    → concerns id d ≡ true
    → (on_message s d).1 ≡ ack_to d ∷ (machine (lookup id s) d).1
unfolding on_message
sent-on_message id s d h =
    ground (arith, sent-on_ps_bind_request s d, ==_iff (ps_request_id d.msg) id)

-- The entry of one id after datagrams that concern it.
unfoldable pub track : Option PsTransaction → List Datagram → Option PsTransaction
track o [] = o
track o (d ∷ ds) = track (machine o d).0 ds

-- The server refines one machine for each transaction id: after any sequence of datagrams, the entry
-- of an id is what that id's own requests make of it, whatever else is received in between.
pub lookup-serve :
    (id : ℕ) (s : Server) (ds : List Datagram)
    → lookup id (serve s ds).0 ≡ track (lookup id s) (only id ds)
unfolding serve track
lookup-serve id s [] = refl
lookup-serve id s (d ∷ ds) =
    let step = lookup-on_message id s d in
    let rest = lookup-serve id (on_message s d).0 ds in
    elim (Bool-cases (concerns id d)) [
      | inl e ↦ rw e (rest ∙ ap (λ o. track o (only id ds)) (rw e at step))
      | inr e ↦ rw e (rest ∙ ap (λ o. track o (only id ds)) (rw e at step))
    ]
