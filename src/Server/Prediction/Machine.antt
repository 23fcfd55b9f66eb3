-- ===== src/Server/Prediction/Machine.antt =====
-- The `ps_bind_request` handler of udp_p2p_server.h seen at one transaction id: a machine over the
-- optional entry of the map.
use p2p_ps_stun.Prelude.{
  ℕ, ◌≡◌, refl, Option, none, some, List, [], ◌∷◌, Map, find, find-insert, find-set, find-erase,
  ◌==◌, if◌then◌else◌,
}
use p2p_ps_stun.Server.Relay.{ack_message}
use p2p_ps_stun.Server.Types.{PsTransaction, new_transaction, Server, Sent, Datagram}
use p2p_ps_stun.Server.Prediction.{
  Update, waiting, complete, update, ps_replies, after_update, on_transaction, on_ps_bind_request,
  ps_request_id,
}

unfoldable pub outcome : Update → Option PsTransaction × List Sent
outcome (waiting tr) = (some tr, [])
outcome (complete tr) = (none, ps_replies tr)

unfoldable pub machine : Option PsTransaction → Datagram → Option PsTransaction × List Sent
unfolding outcome
machine none d = (some (new_transaction d.peer_addr d.check_time), [])
machine (some tr) d = outcome (update tr d.peer_addr d.check_time d.stamp_time)

find-after_update :
    (id j : ℕ) (tr : PsTransaction) (m : Map PsTransaction) (u : Update)
    → find id m ≡ some tr
    → find j (after_update id m u).0 ≡ (if id == j then (outcome u).0 else find j m)
unfolding after_update outcome
find-after_update id j tr m (waiting t) e = find-set id j t tr m e
find-after_update id j tr m (complete t) e = find-erase id j m

sent-after_update :
    (id : ℕ) (m : Map PsTransaction) (u : Update) → (after_update id m u).1 ≡ (outcome u).1
unfolding after_update outcome
sent-after_update id m (waiting t) = refl
sent-after_update id m (complete t) = refl

find-on_transaction :
    (id j : ℕ) (o : Option PsTransaction) (m : Map PsTransaction) (d : Datagram)
    → find id m ≡ o
    → find j (on_transaction id o m d).0 ≡ (if id == j then (machine o d).0 else find j m)
unfolding machine on_transaction
find-on_transaction id j none m d e = find-insert id j _ m e
find-on_transaction id j (some tr) m d e = find-after_update id j tr m _ e

sent-on_transaction :
    (id : ℕ) (o : Option PsTransaction) (m : Map PsTransaction) (d : Datagram)
    → (on_transaction id o m d).1 ≡ (machine o d).1
unfolding machine on_transaction
sent-on_transaction id none m d = refl
sent-on_transaction id (some tr) m d = sent-after_update id m _

abbrev pub lookup : ℕ → Server → Option PsTransaction
lookup id s = find id s.ps_transaction_client_map

pub lookup-on_ps_bind_request :
    (j : ℕ) (s : Server) (d : Datagram)
    → lookup j (on_ps_bind_request s d).0 ≡ (
        if ps_request_id d.msg == j
        then (machine (lookup (ps_request_id d.msg) s) d).0
        else lookup j s)
unfolding on_ps_bind_request
lookup-on_ps_bind_request j s d =
    find-on_transaction (ps_request_id d.msg) j _ s.ps_transaction_client_map d refl

pub sent-on_ps_bind_request :
    (s : Server) (d : Datagram)
    → (on_ps_bind_request s d).1
      ≡ record { via = d.handle; msg = ack_message; to = d.peer_addr }
        ∷ (machine (lookup (ps_request_id d.msg) s) d).1
unfolding on_ps_bind_request
sent-on_ps_bind_request s d =
    rw (sent-on_transaction (ps_request_id d.msg) _ s.ps_transaction_client_map d)
