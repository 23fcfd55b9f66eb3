-- ===== src/Network/Predicting/Course.antt =====
-- What a client of p2p_ps_connector.h does in a course in which all that its NAT lets in arrives.
use mathlib.Core.List.{Memᴰ}
use p2p_ps_stun.Prelude.{
  ℕ, ◌^◌, ◌<◌, ◌≡◌, sym, subst, inl, inr, refl, true, false, List, [], ◌∷◌, ◌++◌, map, All-append,
  All-split, ==_refl,
}
use p2p_ps_stun.Wire.{SockaddrIn, zero_message, ntohl, transaction_id, stun_server_addr}
use p2p_ps_stun.Wire.MessageType
use p2p_ps_stun.Wire.Addressing.{id_round_trip}
use p2p_ps_stun.Double.{Double}
use p2p_ps_stun.Ports.{PortManager}
use p2p_ps_stun.Server.Types.{Server, Sent, socket_0, socket_1, Datagram}
use p2p_ps_stun.Server.Prediction.{ps_request_id}
use p2p_ps_stun.Server.Prediction.Machine.{machine, lookup}
use p2p_ps_stun.Server.Loop.{on_message}
use p2p_ps_stun.Server.History.Isolation.{ack_to, concerns, sent-on_message}
use p2p_ps_stun.Socket.{UdpSocket}
use p2p_ps_stun.Connector.Types.{make_message}
use p2p_ps_stun.Connector.Predicting.{
  Config, Loop, Round, looping, goes_on, request, greet_second, round, is_over,
}
use p2p_ps_stun.Network.{Packet, Hears, packet}
use p2p_ps_stun.Network.Schedule.{heard-Hears}
use p2p_ps_stun.Network.Predicting.{Host, World, Client, idle, active, posted, Sends, Act}
use p2p_ps_stun.Network.Predicting.Schedule.{acks, asked, greet_first-asked, turn}
use p2p_ps_stun.Network.Predicting.Replies.{respond, IsConnected, call_round}
use p2p_ps_stun.Network.Predicting.Stages.{
  Stage, Stage-keeps, answer_for, received, packets-Sends, first_acts_as, request_is_served,
}

-- A packet to `x` is the answer to one that was sent from there.
pub record IsAnswer (x : SockaddrIn) (sent : List Packet) (p : Packet) : Type 0 where
  pub to : p.to ≡ x
  pub asked : Packet
  pub was_sent : Memᴰ asked sent
  pub sent_from : asked.from ≡ x
  pub sent_to : asked.to ≡ p.from

-- A client's messages can be seen to come from `x`, and then the answers to these reach it. So much
-- holds behind a NAT that filters by address and port, and behind any that filters less.
pub record IsMapped (h : Host) (x : SockaddrIn) : Type 0 where
  pub shown : h.Shows x
  pub admitted : (sent : List Packet) (p : Packet) → IsAnswer x sent p → h.Admits sent p

-- The two requests of a client, seen at `x1` and `x2`, and their acknowledgements.
module _ (c : Config) (x1 x2 : SockaddrIn) where
  abbrev pub request_1 : Packet
  request_1 = packet x1 (request c c.stun_server_address1 zero_message)

  abbrev pub asks_1 : ℕ → Datagram
  asks_1 t = received socket_0 t request_1

  abbrev pub ack_1 : Packet
  ack_1 = answer_for c (ack_to (asks_1 0))

  abbrev request_2 : Packet
  request_2 = packet x2 (request c c.stun_server_address2 ack_1.msg)

  abbrev pub asks_2 : ℕ → Datagram
  asks_2 t = received socket_1 t request_2

  abbrev pub ack_2 : Packet
  ack_2 = answer_for c (ack_to (asks_2 0))

  pub asks-concerns :
      (t1 t2 : ℕ)
      → c.transaction_id < 2 ^ 32
      → (concerns c.transaction_id (asks_1 t1) ≡ true)
        × (concerns c.transaction_id (asks_2 t2) ≡ true)
  unfolding ps_request_id make_message
  asks-concerns t1 t2 h =
      rw (id_round_trip c.transaction_id (zero_message.message) h, ==_refl c.transaction_id)
        (refl, refl)

module _ {f d : Double} {w : World} {s : Server} {k : Client} {ps : List Packet} where
  open w use {a_config}

  -- Its greeting, when the second request is answered by an acknowledgement and `replies`, and the
  -- second acknowledgement starts the loop `l`.
  pub greets :
      (x1 x2 : SockaddrIn) (t1 t2 : ℕ) (socket : UdpSocket) (ports : PortManager) (l : Loop)
      (replies : List Sent)
      → IsMapped w.a x1
      → IsMapped w.a x2
      → (stun_server_addr a_config.stun_server_address1).addr ≡ w.server1
      → (stun_server_addr a_config.stun_server_address2).addr ≡ w.server2
      → a_config.transaction_id < 2 ^ 32
      → greet_second d a_config
          (acks d (ack_1 a_config x1 x2) (ack_2 a_config x1 x2))
          (asked d a_config socket ports (ack_1 a_config x1 x2))
        ≡ looping l
      → (on_message (on_message s (asks_1 a_config x1 x2 t1)).0 (asks_2 a_config x1 x2 t2)).1
        ≡ ack_to (asks_2 a_config x1 x2 t2) ∷ replies
      → Stage f d w s idle k ps
      → Stage f d w
          (on_message (on_message s (asks_1 a_config x1 x2 t1)).0 (asks_2 a_config x1 x2 t2)).0
          (active (posted l))
          k
          (map (answer_for a_config) replies ++ request_1 a_config x1 x2 ∷ ps)
  greets x1 x2 t1 t2 socket ports l replies m1 m2 server_1 server_2 h opens answered g =
      let r1 = request_1 a_config x1 x2 in
      let r2 = request_2 a_config x1 x2 in
      let ack = ack_1 a_config x1 x2 in
      let ack' = ack_2 a_config x1 x2 in
      let early = (machine (lookup a_config.transaction_id s) (asks_1 a_config x1 x2 t1)).1 in
      let out = map (answer_for a_config) replies in
      let asked_once =
        Stage-keeps (r1 ∷ r1 ∷ ps) (λ sent there. (there.0, there))
          (first_acts_as (packets-Sends w.a x1 m1.shown _) g (λ _ _. Act.begins socket ports)) in
      let first_served =
        Stage-keeps (ack ∷ r1 ∷ ps)
          (λ sent there. (
            there.0,
            (All-split (λ p. Memᴰ p sent) (map (answer_for a_config) early) (r1 ∷ ps) there.1).1,
          ))
          (request_is_served a_config socket_0 t1 r1 early (inl server_1)
            (sent-on_message a_config.transaction_id s (asks_1 a_config x1 x2 t1)
              (asks-concerns a_config x1 x2 t1 t2 h).0)
            asked_once) in
      let asked_twice =
        Stage-keeps (r2 ∷ r2 ∷ r1 ∷ ps) (λ sent there. (there.0, (there.0, there.1.1)))
          (first_acts_as (packets-Sends w.a x2 m2.shown _) first_served (λ sent there.
            Act.first_acknowledged ack (acks d ack ack') there.0
              (m1.admitted sent ack (record {
                to = refl;
                asked = r1;
                was_sent = there.1.0;
                sent_from = refl;
                sent_to = refl;
              }))
              (heard-Hears ack) (greet_first-asked d a_config socket ports ack ack'))) in
      let second_served =
        request_is_served a_config socket_1 t2 r2 replies (inr server_2) answered asked_twice in
      Stage-keeps (out ++ r1 ∷ ps)
        (λ sent there.
          let (front, back) = All-split (λ p. Memᴰ p sent) out (r2 ∷ r1 ∷ ps) there.1 in
          All-append (λ p. Memᴰ p sent) out (r1 ∷ ps) front back.1)
        (first_acts_as Sends.nothing second_served (λ sent there.
          Act.second_acknowledged ack' (acks d ack ack') there.0
            (m2.admitted sent ack' (record {
              to = refl;
              asked = r2;
              was_sent = (All-split (λ p. Memᴰ p sent) out (r2 ∷ r1 ∷ ps) there.1).1.0;
              sent_from = refl;
              sent_to = refl;
            }))
            refl (heard-Hears ack') opens))

  -- It hears the answer `p` to `q`, which it sent from `x`.
  pub hears_answer :
      (x : SockaddrIn) (p q : Packet) (r : Round d) (l l' : Loop) (out : List Packet)
      → IsMapped w.a x
      → p.to ≡ x
      → q.from ≡ x
      → q.to ≡ p.from
      → Hears r.event.reception p
      → is_over l ≡ false
      → round f d a_config r l ≡ goes_on l'
      → Sends w.a l'.sent out
      → Stage f d w s (active l) k (p ∷ q ∷ ps)
      → Stage f d w s (active (posted l')) k (out ++ p ∷ q ∷ ps)
  hears_answer x p q r l l' out m to from at heard more goes sends g =
      first_acts_as sends g (λ sent there.
        Act.hears p r there.0
          (m.admitted sent p
            (record { to = to; asked = q; was_sent = there.1.0; sent_from = from; sent_to = at }))
          heard more goes)

  -- The other client's call `p` connects it, if it has called that client by `q`.
  pub connects :
      (x : SockaddrIn) (p q : Packet) (l : Loop)
      → IsMapped w.a x
      → p.to ≡ x
      → p.msg.type ≡ MessageType.client_bind_request
      → ntohl (transaction_id (p.msg.message)) ≡ a_config.transaction_id
      → q.from ≡ x
      → q.to ≡ p.from
      → is_over l ≡ false
      → l.sent ≡ []
      → Stage f d w s (active l) k (p ∷ q ∷ ps)
      → (l' : Loop) × IsConnected p.from l'
        × Stage f d w s (active l') k (packet x (respond a_config p.from) ∷ p ∷ q ∷ ps)
  connects x p q l m to kind id from at more empty g =
      let (l', e, up, sent) = call_round f d a_config p l kind id empty in
      (
        posted l',
        record { up = up.up; target = up.target; success = up.success },
        hears_answer x p q (turn d 0 p) l l' (packet x (respond a_config p.from) ∷ []) m to from at
            (heard-Hears p) more e
            (subst (λ os. Sends w.a os (packet x (respond a_config p.from) ∷ [])) (sym sent)
              (packets-Sends w.a x m.shown (respond a_config p.from ∷ [])))
            g,
      )
