-- ===== src/Network/Predicting/Connecting.antt =====
-- Two clients of p2p_ps_connector.h that are not behind symmetric NATs can always connect through the
-- server of udp_p2p_server.h.
use mathlib.Core.List.{Memᴰ, List}
use p2p_ps_stun.Wire.MessageType
use p2p_ps_stun.Prelude.{ℕ, ◌^◌, ◌<◌, ◌≡◌, ◌≢◌, ◌∙◌, refl, sym, ap, subst, false, [], ◌∷◌}
use p2p_ps_stun.Wire.{SockaddrIn, Address, zero_message, ntohl, transaction_id, stun_server_addr}
use p2p_ps_stun.Wire.Addressing.{id_round_trip}
use p2p_ps_stun.Double.{Double}
use p2p_ps_stun.Ports.{PortManager}
use p2p_ps_stun.Server.Types.{Server}
use p2p_ps_stun.Socket.{UdpSocket}
use p2p_ps_stun.Connector.Types.{make_message}
use p2p_ps_stun.Connector.Predicting.{Config, Loop, is_over}
use p2p_ps_stun.Network.{Packet, packet}
use p2p_ps_stun.Network.Schedule.{heard-Hears}
use p2p_ps_stun.Network.Predicting.{Host, World, active, posted, Network, Reach}
use p2p_ps_stun.Network.Predicting.Schedule.{turn}
use p2p_ps_stun.Network.Predicting.Replies.{call, called, one_port, reply_round, IsConnected}
use p2p_ps_stun.Network.Predicting.Stages.{Stage, Stage-keeps, Stage-mirror, packets-Sends}
use p2p_ps_stun.Network.Predicting.Course.{IsMapped, request_1, hears_answer, connects}
use p2p_ps_stun.Network.Predicting.Introducing.{
  IsMeeting, Times, IsPrompt, end_server, reply_a, reply_b, begun, greet_second-begun, both_greeted,
}

-- The call of a client at `y` to the client at `x` of the host `h` is among the packets that were
-- sent, and reaches that host: it is what a `select` of the called client finds.
pub record IsCalled (h : Host) (sent : List Packet) (y x : SockaddrIn) : Type 0 where
  pub call_packet : Packet
  pub was_sent : Memᴰ call_packet sent
  pub type : call_packet.msg.type ≡ MessageType.client_bind_request
  pub from_caller : call_packet.from ≡ y
  pub to_called : call_packet.to ≡ x
  pub let_in : h.Admits sent call_packet

-- An end of the network in which each client is connected with the other, the first with the address
-- `y`, the second with the address `x`, and each has been called by the other at that address.
pub record Connects (f d : Double) (w : World) (x y : SockaddrIn) : Type 0 where
  pub end : Network
  pub reached : Reach f d w end
  pub loop_a : Loop
  pub loop_b : Loop
  pub is_a : end.first ≡ active loop_a
  pub is_b : end.second ≡ active loop_b
  pub a_up : IsConnected y loop_a
  pub b_up : IsConnected x loop_b
  pub a_called : IsCalled w.a end.sent y x
  pub b_called : IsCalled w.b end.sent x y

-- The call of a client at `y` is let in where it answers a call from `x`.
is_called :
    (h : Host) (c c' : Config) (x y : SockaddrIn) (sent : List Packet)
    → IsMapped h x
    → Memᴰ (packet y (call c x)) sent
    → Memᴰ (packet x (call c' y)) sent
    → IsCalled h sent y x
unfolding make_message
is_called h c c' x y sent m there asked = record {
  call_packet = packet y (call c x);
  was_sent = there;
  type = refl;
  from_caller = refl;
  to_called = refl;
  let_in = m.admitted sent (packet y (call c x)) (record {
    to = refl;
    asked = packet x (call c' y);
    was_sent = asked;
    sent_from = refl;
    sent_to = refl;
  });
}

pub ends :
    {f d : Double} {w : World} {s : Server} {la lb : Loop} (x y : SockaddrIn)
    → IsMapped w.a x
    → IsMapped w.b y
    → Stage f d w s
        (active la)
        (active lb)
        (packet x (call w.a_config y) ∷ packet y (call w.b_config x) ∷ [])
    → IsConnected y la
    → IsConnected x lb
    → Connects f d w x y
ends {w = w} {s = s} {la = la} {lb = lb} x y at_x at_y g a_up b_up = record {
  end = record { server = s; first = active la; second = active lb; sent = g.sent };
  reached = g.reached;
  loop_a = la;
  loop_b = lb;
  is_a = refl;
  is_b = refl;
  a_up = a_up;
  b_up = b_up;
  a_called = is_called w.a w.b_config w.a_config x y g.sent at_x (g.there.1.0) (g.there.0);
  b_called = is_called w.b w.a_config w.b_config y x g.sent at_y (g.there.0) (g.there.1.0);
}

-- The first client, too, has a port and is not behind a symmetric NAT.
pub record IsDirect (w : World) (x : SockaddrIn) : Type 0 where
  pub direct : w.a_config.is_sym_nat ≡ false
  pub port_known : x.port ≢ 0
  pub port_small : x.port < 2 ^ 16

module _ (f d : Double) (w : World) (x y : SockaddrIn) (v : IsMeeting w x x y)
    (x_direct : IsDirect w x) (t : Times) (prompt : IsPrompt t) (sa sb : UdpSocket)
    (pa pb : PortManager) where
  open w use {a_config, b_config}

  abbrev end : Server
  end = end_server t a_config b_config x x y

  abbrev told_a : Packet
  told_a = reply_a t a_config b_config x x y

  abbrev told_b : Packet
  told_b = reply_b t a_config b_config x x y

  abbrev begun_a : Loop
  begun_a = posted (begun d a_config x sa pa)

  abbrev begun_b : Loop
  begun_b = posted (begun d b_config y sb pb)

  abbrev called_a : Loop
  called_a = called a_config y told_a begun_a

  abbrev called_b : Loop
  called_b = called b_config x told_b begun_b

  abbrev call_a : Packet
  call_a = packet x (call a_config y)

  abbrev call_b : Packet
  call_b = packet y (call b_config x)

  first_calls :
      Stage f d w end
        (active (posted called_a))
        (active begun_b)
        (told_b ∷ request_1 b_config y y ∷ call_a ∷ [])
  unfolding is_over
  first_calls =
      let asked_a = request_1 a_config x x in
      let asked_b = request_1 b_config y y in
      let host : Address → ℕ = λ a. (stun_server_addr a).addr in
      let greeted =
        both_greeted f d w x x y v t prompt sa sb pa pb _
          (greet_second-begun d a_config x sa pa x_direct.direct) in
      Stage-keeps (told_b ∷ asked_b ∷ call_a ∷ [])
        (λ sent there. (there.1.1.1.0, (there.1.1.1.1.0, (there.0, tt))))
        (hears_answer x told_a asked_a (turn d 0 told_a) begun_a called_a (call_a ∷ []) v.at_1 refl
          refl (sym (ap stun_server_addr v.same_1)) (heard-Hears told_a) refl
          (reply_round f d a_config y 0 told_a begun_a x_direct.direct
            (one_port f y t.b1 t.b2 0 v.port_small v.port_known) refl (ap host v.same_1) refl refl)
          (packets-Sends w.a x v.at_1.shown (call a_config y ∷ []))
          (Stage-keeps (told_a ∷ asked_a ∷ told_b ∷ asked_b ∷ [])
            (λ sent there. (there.0, (there.1.1.1.0, (there.1.0, (there.1.1.0, tt))))) greeted))

  both_call :
      Stage f d w end (active (posted called_a)) (active (posted called_b)) (call_b ∷ call_a ∷ [])
  unfolding is_over
  both_call =
      Stage-keeps (call_b ∷ call_a ∷ []) (λ sent there. (there.0, (there.1.1.1.0, tt)))
        (Stage-mirror (
          hears_answer y told_b (request_1 b_config y y) (turn d 0 told_b) begun_b called_b
            (call_b ∷ []) v.at_y refl refl refl (heard-Hears told_b) refl
            (reply_round f d b_config x 0 told_b begun_b v.direct
              (one_port f x t.a1 t.a2 0 x_direct.port_small x_direct.port_known) refl refl refl
              refl)
            (packets-Sends w.b y v.at_y.shown (call b_config x ∷ [])) (Stage-mirror first_calls)))

  call_a-id : ntohl (transaction_id (call_a.msg.message)) ≡ b_config.transaction_id
  unfolding make_message
  call_a-id =
      id_round_trip a_config.transaction_id (zero_message.message) v.small_id ∙ sym v.same_id

  call_b-id : ntohl (transaction_id (call_b.msg.message)) ≡ a_config.transaction_id
  unfolding make_message
  call_b-id =
      id_round_trip b_config.transaction_id (zero_message.message)
        (subst (λ i. i < 2 ^ 32) (sym v.same_id) v.small_id)
      ∙ v.same_id

  both_connect : Connects f d w x y
  unfolding is_over make_message
  both_connect =
      let (la, a_up, g) =
        connects x call_b call_a (posted called_a) v.at_1 refl refl call_b-id refl refl refl refl
          both_call in
      let (lb, b_up, g') =
        connects y call_a call_b (posted called_b) v.at_y refl refl call_a-id refl refl refl refl (
          Stage-mirror (
            Stage-keeps (call_a ∷ call_b ∷ []) (λ sent there. (there.1.1.0, (there.1.0, tt))) g)) in
      ends x y v.at_1 v.at_y
        (Stage-mirror
          (Stage-keeps (call_a ∷ call_b ∷ []) (λ sent there. (there.1.0, (there.1.1.0, tt))) g'))
        a_up b_up

pub predicting_clients_can_connect :
    (f d : Double) (w : World) (x y : SockaddrIn)
    → IsMeeting w x x y
    → IsDirect w x
    → (t : Times) → IsPrompt t
    → (sa sb : UdpSocket) (pa pb : PortManager) → Connects f d w x y
predicting_clients_can_connect = both_connect
