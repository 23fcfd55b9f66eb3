-- ===== src/Server/History/Times.antt =====
-- The times T1 and T2 in the replies of udp_p2p_server.h, over whole histories.
use p2p_ps_stun.Prelude.{
  ℕ, ◌≤◌, ◌≢◌, ◌⊎◌, inl, inr, Bool-cases, Option, none, some, List, [], ◌∷◌, All, All-append, Map,
  find, arith,
}
use p2p_ps_stun.Wire.{SockaddrIn}
use p2p_ps_stun.Wire.MessageType
use p2p_ps_stun.Server.Types.{PsTransaction, new_transaction, Server, new_server, Sent, Datagram}
use p2p_ps_stun.Server.Relay.{on_bind_request, relay}
use p2p_ps_stun.Server.Prediction.{Update, waiting, complete, on_ps_bind_request, ps_request_id}
use p2p_ps_stun.Server.Prediction.Invariant.{
  IsWellFormed, IsFine, update-IsFine, new_transaction-IsWellFormed,
}
use p2p_ps_stun.Server.Prediction.Clock.{IsTimed, TimedUpdate, update-IsTimed}
use p2p_ps_stun.Server.Prediction.Machine.{machine, outcome, lookup, sent-on_ps_bind_request}
use p2p_ps_stun.Server.Loop.{on_message, on_heartbeat, serve}
use p2p_ps_stun.Server.Loop.Dispatch.{on_message_cases}
use p2p_ps_stun.Server.History.Isolation.{concerns, lookup-on_message}
use p2p_ps_stun.Server.History.Soundness.{HasSender}

-- The clock readings of a history never fall, from `now` on.
abbrev pub IsChronological : ℕ → List Datagram → Type 0
IsChronological now [] = Unit
IsChronological now (d ∷ ds) =
    (now ≤ d.check_time) × (d.check_time ≤ d.stamp_time) × IsChronological d.stamp_time ds

abbrev pub Timely : ℕ → Option PsTransaction → Type 0
Timely now none = Unit
Timely now (some tr) = IsWellFormed tr × IsTimed now tr

Timely-mono :
    (now later : ℕ) (o : Option PsTransaction) → now ≤ later → Timely now o → Timely later o
Timely-mono now later none h t = tt
Timely-mono now later (some tr) h t = (t.0, ground arith)

-- A reply with the second time not before the first.
abbrev pub HasOrderedTimes : Sent → Type 0
HasOrderedTimes m = (m.msg.type ≢ MessageType.ps_bind_reply) ⊎ (m.msg.message.t1 ≤ m.msg.message.t2)

abbrev pub Orderly : ℕ → Option PsTransaction × List Sent → Type 0
Orderly now r = Timely now r.0 × All HasOrderedTimes r.1

outcome-Orderly :
    (check_time stamp_time : ℕ) (u : Update)
    → IsFine u
    → TimedUpdate check_time stamp_time u
    → Orderly stamp_time (outcome u)
unfolding outcome
outcome-Orderly check_time stamp_time (waiting tr) f t = ((f, t), tt)
outcome-Orderly check_time stamp_time (complete tr) f t = (tt, (inr t.1, (inr t.0, tt)))

machine-Orderly :
    (now : ℕ) (o : Option PsTransaction) (d : Datagram)
    → HasSender d
    → now ≤ d.check_time
    → d.check_time ≤ d.stamp_time
    → Timely now o
    → Orderly d.stamp_time (machine o d)
unfolding machine new_transaction
machine-Orderly now none d s h k t =
    ((new_transaction-IsWellFormed d.peer_addr d.check_time s, ground arith), tt)
machine-Orderly now (some tr) d s h k t =
    outcome-Orderly d.check_time d.stamp_time _
      (update-IsFine tr d.peer_addr d.check_time d.stamp_time s t.0)
      (update-IsTimed tr d.peer_addr now d.check_time d.stamp_time h k t.0 t.1)

-- Every message but a ps_bind_request is answered with no ps_bind_reply.
relay-HasOrderedTimes :
    (id : ℕ) (o : Option SockaddrIn) (m : Map SockaddrIn) (a : SockaddrIn)
    → All HasOrderedTimes (relay id o m a).1
unfolding relay
relay-HasOrderedTimes id none m a = tt
relay-HasOrderedTimes id (some b) m a = (inl (omega arith), (inl (omega arith), tt))

on_bind_request-HasOrderedTimes :
    (s : Server) (d : Datagram) → All HasOrderedTimes (on_bind_request s d).1
unfolding on_bind_request
on_bind_request-HasOrderedTimes s d =
    (inl (omega arith), relay-HasOrderedTimes _ _ s.transaction_client_map d.peer_addr)

ps-HasOrderedTimes :
    (s : Server) (d : Datagram)
    → All HasOrderedTimes (machine (lookup (ps_request_id d.msg) s) d).1
    → All HasOrderedTimes (on_ps_bind_request s d).1
ps-HasOrderedTimes s d h = rw (sent-on_ps_bind_request s d) (inl (omega arith), h)

on_message-HasOrderedTimes :
    (s : Server) (d : Datagram)
    → All HasOrderedTimes (machine (lookup (ps_request_id d.msg) s) d).1
    → All HasOrderedTimes (on_message s d).1
unfolding on_heartbeat
on_message-HasOrderedTimes s d h =
    on_message_cases (λ r. All HasOrderedTimes r.1) s d (λ _. ps-HasOrderedTimes s d h)
      (λ _. on_bind_request-HasOrderedTimes s d) (λ _. (inl (omega arith), tt)) (λ _. tt)

abbrev Timed : ℕ → Server → Type 0
Timed now s = (id : ℕ) → Timely now (lookup id s)

on_message-Timed :
    (now : ℕ) (s : Server) (d : Datagram)
    → HasSender d
    → now ≤ d.check_time
    → d.check_time ≤ d.stamp_time
    → Timed now s
    → Timed d.stamp_time (on_message s d).0
on_message-Timed now s d h k l t id = elim (Bool-cases (concerns id d)) [
  | inl e ↦
      rw (rw e at (lookup-on_message id s d)) (machine-Orderly now (lookup id s) d h k l (t id)).0
  | inr e ↦
      rw (rw e at (lookup-on_message id s d))
        (Timely-mono now d.stamp_time (lookup id s) (omega arith) (t id))
]

serve-HasOrderedTimes :
    (now : ℕ) (s : Server) (ds : List Datagram)
    → All HasSender ds
    → IsChronological now ds
    → Timed now s
    → All HasOrderedTimes (serve s ds).1
unfolding serve
serve-HasOrderedTimes now s [] h c t = tt
serve-HasOrderedTimes now s (d ∷ ds) h c t =
    All-append HasOrderedTimes (on_message s d).1 _
      (on_message-HasOrderedTimes s d
        (machine-Orderly now (lookup (ps_request_id d.msg) s) d h.0 c.0 c.1 (t _)).1)
      (serve-HasOrderedTimes d.stamp_time (on_message s d).0 ds h.1 c.2
        (on_message-Timed now s d h.0 c.0 c.1 t))

-- From its start, and while its clock does not run backwards, the server sends no ps_bind_reply with
-- T2 before T1, whatever it receives from senders that have an address.
pub replies_have_ordered_times :
    (now : ℕ) (ds : List Datagram)
    → All HasSender ds
    → IsChronological now ds
    → All HasOrderedTimes (serve new_server ds).1
unfolding find
replies_have_ordered_times now ds h c = serve-HasOrderedTimes now new_server ds h c (λ _. tt)
