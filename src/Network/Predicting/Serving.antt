-- ===== src/Network/Predicting/Serving.antt =====
-- The server of udp_p2p_server.h among two clients of p2p_ps_connector.h.
use p2p_ps_stun.Prelude.{
  ℕ, ◌≡◌, ◌≢◌, ◌⊎◌, inl, inr, refl, true, Bool-cases, Option, none, some, List, All, arith,
}
use p2p_ps_stun.Wire.{SockaddrIn}
use p2p_ps_stun.Wire.MessageType
use p2p_ps_stun.Server.Types.{PsTransaction, new_transaction, Server, Sent, Datagram}
use p2p_ps_stun.Server.Prediction.{
  Update, waiting, complete, update, on_ps_bind_request, ps_request_id,
}
use p2p_ps_stun.Server.Prediction.Invariant.{
  IsWellFormed, IsMatched, IsFine, update-IsFine, new_transaction-IsWellFormed,
}
use p2p_ps_stun.Server.Prediction.Machine.{machine, outcome, lookup, sent-on_ps_bind_request}
use p2p_ps_stun.Server.Loop.{on_message, on_heartbeat}
use p2p_ps_stun.Server.Loop.Dispatch.{on_message_cases}
use p2p_ps_stun.Server.History.Isolation.{concerns, lookup-on_message}
use p2p_ps_stun.Network.Predicting.{World, IsWorld}
use p2p_ps_stun.Network.Predicting.Truth.{FineSent, to_first, to_second, acknowledges, mirror}

-- A host of a client.
abbrev pub IsClient : World → ℕ → Type 0
IsClient w x = (x ≡ w.a.host) ⊎ (x ≡ w.b.host)

-- The hosts of a transaction are those of the two clients.
pub record IsTheirs (w : World) (tr : PsTransaction) : Type 0 where
  pub first_client : IsClient w tr.cl1_sk1.addr
  pub second_client : (tr.cl2_sk1.addr ≡ 0) ⊎ (IsClient w tr.cl2_sk1.addr)

abbrev TheirUpdate : World → Update → Type 0
TheirUpdate w (waiting tr) = IsTheirs w tr
TheirUpdate w (complete tr) = IsTheirs w tr

update-IsTheirs :
    (w : World) (tr : PsTransaction) (a : SockaddrIn) (check_time stamp_time : ℕ)
    → IsClient w a.addr
    → IsTheirs w tr
    → TheirUpdate w (update tr a check_time stamp_time)
unfolding update
update-IsTheirs w tr a check_time stamp_time h v = ground arith

abbrev Known : World → Option PsTransaction → Type 0
Known w none = Unit
Known w (some tr) = IsWellFormed tr × IsTheirs w tr

abbrev Tells : World → Option PsTransaction × List Sent → Type 0
Tells w r = Known w r.0 × All (FineSent w) r.1

-- The clients of a matched transaction are the two.
each_other :
    (w : World) (tr : PsTransaction)
    → IsMatched tr
    → IsTheirs w tr
    → ((tr.cl1_sk1.addr ≡ w.a.host) × (tr.cl2_sk1.addr ≡ w.b.host))
      ⊎ ((tr.cl1_sk1.addr ≡ w.b.host) × (tr.cl2_sk1.addr ≡ w.a.host))
each_other w tr m t = omega (arith, m.second_known, m.well_formed, t)

outcome-Tells : (w : World) (u : Update) → IsFine u → TheirUpdate w u → Tells w (outcome u)
unfolding outcome
outcome-Tells w (waiting tr) f t = ((f, t), tt)
outcome-Tells w (complete tr) f t = elim (each_other w tr f t) [
  | inl (e, g) ↦ (tt, (to_first refl e g, (to_second refl g e, tt)))
  | inr (e, g) ↦ (tt, (to_second refl e g, (to_first refl g e, tt)))
]

machine-Tells :
    (w : World) (o : Option PsTransaction) (d : Datagram)
    → IsWorld w
    → IsClient w d.peer_addr.addr
    → Known w o
    → Tells w (machine o d)
unfolding machine new_transaction
machine-Tells w none d v h k =
    ((new_transaction-IsWellFormed d.peer_addr d.check_time (ground (arith, v)), ground arith), tt)
machine-Tells w (some tr) d v h k =
    outcome-Tells w _
      (update-IsFine tr d.peer_addr d.check_time d.stamp_time (ground (arith, v)) k.0)
      (update-IsTheirs w tr d.peer_addr d.check_time d.stamp_time h k.1)

its_type : (id : ℕ) (d : Datagram) → concerns id d ≡ true → d.msg.type ≡ MessageType.ps_bind_request
its_type id d e = ground arith

-- Every transaction is between the two clients.
abbrev pub Between : World → Server → Type 0
Between w s = (id : ℕ) → Known w (lookup id s)

Known-mirror : (w : World) (o : Option PsTransaction) → Known w o → Known (mirror w) o
Known-mirror w none k = tt
Known-mirror w (some tr) k = (k.0, ground (arith, k.1))

pub Between-mirror : (w : World) (s : Server) → Between w s → Between (mirror w) s
Between-mirror w s k id = Known-mirror w (lookup id s) (k id)

module _ (w : World) (s : Server) (d : Datagram) (v : IsWorld w) (known : Between w s) where
  -- A packet that is no request leaves the transactions.
  pub on_message-Between :
      (d.msg.type ≡ MessageType.ps_bind_request → IsClient w d.peer_addr.addr)
      → Between w (on_message s d).0
  on_message-Between from id = elim (Bool-cases (concerns id d)) [
    | inl e ↦
        rw (rw e at (lookup-on_message id s d))
          (machine-Tells w (lookup id s) d v (from (its_type id d e)) (known id)).0
    | inr e ↦ rw (rw e at (lookup-on_message id s d)) (known id)
  ]

  sent_by_request : IsClient w d.peer_addr.addr → All (FineSent w) (on_ps_bind_request s d).1
  sent_by_request from =
      rw (sent-on_ps_bind_request s d)
        (acknowledges refl, (machine-Tells w (lookup (ps_request_id d.msg) s) d v from (known _)).1)

  pub on_message-Fine :
      (d.msg.type ≡ MessageType.ps_bind_request → IsClient w d.peer_addr.addr)
      → d.msg.type ≢ MessageType.bind_request
      → All (FineSent w) (on_message s d).1
  unfolding on_heartbeat
  on_message-Fine from plain =
      on_message_cases (λ r. All (FineSent w) r.1) s d (λ t. sent_by_request (from t))
        (λ t. absurd (plain t)) (λ _. (acknowledges refl, tt)) (λ _. tt)
