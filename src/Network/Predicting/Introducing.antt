-- ===== src/Network/Predicting/Introducing.antt =====
-- Two clients of p2p_ps_connector.h ask the server of udp_p2p_server.h, and are told of each other.
use mathlib.Core.List.{Memᴰ}
use p2p_ps_stun.Prelude.{
  ℕ, All-split, map, ◌^◌, ◌<◌, ◌≤◌, ◌+◌, ◌≡◌, ◌≢◌, ◌∙◌, inr, refl, sym, ap, subst, true, false, [],
  ◌∷◌, find,
}
use p2p_ps_stun.Wire.{SockaddrIn, Address, stun_server_addr}
use p2p_ps_stun.Double.{Double}
use p2p_ps_stun.Ports.{PortManager}
use p2p_ps_stun.Server.Types.{new_server, Server, Sent}
use p2p_ps_stun.Server.Prediction.Machine.{machine, lookup}
use p2p_ps_stun.Server.Prediction.{expiry}
use p2p_ps_stun.Server.Loop.{on_message, serve}
use p2p_ps_stun.Server.History.Isolation.{concerns, ack_to, sent-on_message}
use p2p_ps_stun.Server.History.Matching.{introduces, pair_is_introduced}
use p2p_ps_stun.Socket.{UdpSocket}
use p2p_ps_stun.Connector.Predicting.{Config, Loop, looping, greet_second}
use p2p_ps_stun.Network.{Packet}
use p2p_ps_stun.Network.Predicting.{World, IsWorld, idle, active, posted, started}
use p2p_ps_stun.Network.Predicting.Schedule.{acks, asked, opened, greet_second-opened}
use p2p_ps_stun.Network.Predicting.Stages.{Stage, Stage-keeps, Stage-mirror, answer_for}
use p2p_ps_stun.Network.Predicting.Course.{
  IsMapped, request_1, asks_1, asks_2, ack_1, ack_2, asks-concerns, greets,
}

-- Two clients that are told the same transaction id, of 32 bits, and the same addresses of the
-- server. The first asks from `x1` and `x2`; the second, which is not behind a symmetric NAT, from
-- `y`, which has a port.
pub record IsMeeting (w : World) (x1 x2 y : SockaddrIn) : Type 0 where
  pub world : IsWorld w
  pub at_1 : IsMapped w.a x1
  pub at_2 : IsMapped w.a x2
  pub at_y : IsMapped w.b y
  pub server_1 : (stun_server_addr w.a_config.stun_server_address1).addr ≡ w.server1
  pub server_2 : (stun_server_addr w.a_config.stun_server_address2).addr ≡ w.server2
  pub same_1 : w.b_config.stun_server_address1 ≡ w.a_config.stun_server_address1
  pub same_2 : w.b_config.stun_server_address2 ≡ w.a_config.stun_server_address2
  pub same_id : w.b_config.transaction_id ≡ w.a_config.transaction_id
  pub small_id : w.a_config.transaction_id < 2 ^ 32
  pub direct : w.b_config.is_sym_nat ≡ false
  pub port_known : y.port ≢ 0
  pub port_small : y.port < 2 ^ 16

-- When the server receives the four requests.
pub record Times : Type 0 where
  pub a1 : ℕ
  pub a2 : ℕ
  pub b1 : ℕ
  pub b2 : ℕ

-- All within 30 seconds of the first.
pub record IsPrompt (t : Times) : Type 0 where
  pub a2_in_time : t.a2 ≤ t.a1 + expiry
  pub b1_in_time : t.b1 ≤ t.a1 + expiry
  pub b2_in_time : t.b2 ≤ t.a1 + expiry
  pub small : t.a1 + expiry < 2 ^ 64

-- The server after the first client's requests.
abbrev server_a : Times → Config → SockaddrIn → SockaddrIn → Server
server_a t c x1 x2 = (serve new_server (asks_1 c x1 x2 t.a1 ∷ asks_2 c x1 x2 t.a2 ∷ [])).0

-- The four requests of two clients with one transaction id.
module _ (t : Times) (ca cb : Config) (x1 x2 y : SockaddrIn) where
  abbrev server_b : Server
  server_b =
      (serve new_server (asks_1 ca x1 x2 t.a1 ∷ asks_2 ca x1 x2 t.a2 ∷ asks_1 cb y y t.b1 ∷ [])).0

  abbrev to_x : Sent
  to_x = introduces x1 (asks_1 cb y y t.b1) (asks_2 cb y y t.b2) t.b1 t.b2

  abbrev to_y : Sent
  to_y = introduces y (asks_1 ca x1 x2 t.a1) (asks_2 ca x1 x2 t.a2) t.a1 t.a2

  introduced :
      IsPrompt t
      → cb.transaction_id ≡ ca.transaction_id
      → ca.transaction_id < 2 ^ 32
      → x1.addr ≡ x2.addr
      → x1.addr ≢ 0
      → y.addr ≢ 0
      → x1.addr ≢ y.addr
      → (on_message server_b (asks_2 cb y y t.b2)).1
        ≡ ack_to (asks_2 cb y y t.b2) ∷ to_x ∷ to_y ∷ []
  unfolding find
  introduced prompt same h x_host x_known y_known apart =
      let (c1, c2) = asks-concerns ca x1 x2 t.a1 t.a2 h in
      let (c3, c4) : (concerns ca.transaction_id (asks_1 cb y y t.b1) ≡ true)
          × (concerns ca.transaction_id (asks_2 cb y y t.b2) ≡ true) =
        subst
          (λ i. (concerns i (asks_1 cb y y t.b1) ≡ true) × (concerns i (asks_2 cb y y t.b2) ≡ true))
          same (asks-concerns cb y y t.b1 t.b2 (subst (λ i. i < 2 ^ 32) (sym same) h)) in
      (pair_is_introduced ca.transaction_id new_server
        (asks_1 ca x1 x2 t.a1 ∷ asks_2 ca x1 x2 t.a2 ∷ asks_1 cb y y t.b1 ∷ [])
        (asks_1 ca x1 x2 t.a1) (asks_2 ca x1 x2 t.a2) (asks_1 cb y y t.b1) (asks_2 cb y y t.b2)
        (record {
          a_host = x_host;
          b_host = refl;
          a_known = x_known;
          b_known = y_known;
          two_hosts = apart;
          a2_in_time = prompt.a2_in_time;
          b1_in_time = prompt.b1_in_time;
          b2_in_time = prompt.b2_in_time;
          small = prompt.small;
        })
        refl (inr (rw (c1, c2, c3) refl)) c4).0

  abbrev pub end_server : Server
  end_server = (on_message server_b (asks_2 cb y y t.b2)).0

  -- The answer to the last request carries both replies.
  abbrev pub reply_a : Packet
  reply_a = answer_for cb to_x

  abbrev pub reply_b : Packet
  reply_b = answer_for cb to_y

-- The loop of a client that is not behind a symmetric NAT and asks from `x`, and what opens it.
module _ (d : Double) (c : Config) (x : SockaddrIn) (s : UdpSocket) (ports : PortManager) where
  abbrev pub begun : Loop
  begun = opened d c s ports (ack_1 c x x) (ack_2 c x x)

  pub greet_second-begun :
      c.is_sym_nat ≡ false
      → greet_second d c (acks d (ack_1 c x x) (ack_2 c x x)) (asked d c s ports (ack_1 c x x))
        ≡ looping begun
  greet_second-begun direct = greet_second-opened d c s ports (ack_1 c x x) (ack_2 c x x) direct

module _ (f d : Double) (w : World) (x1 x2 y : SockaddrIn) (v : IsMeeting w x1 x2 y) (t : Times)
    (prompt : IsPrompt t) (sa sb : UdpSocket) (pa pb : PortManager) (l : Loop)
    (opens : greet_second d w.a_config
        (acks d (ack_1 w.a_config x1 x2) (ack_2 w.a_config x1 x2))
        (asked d w.a_config sa pa (ack_1 w.a_config x1 x2))
      ≡ looping l) where
  open w use {a_config, b_config}

  first_greeted :
      Stage f d w
        (server_a t a_config x1 x2)
        (active (posted l))
        idle
        (request_1 a_config x1 x2 ∷ [])
  unfolding serve
  first_greeted =
      let id = a_config.transaction_id in
      let replies =
        (machine (lookup id (on_message new_server (asks_1 a_config x1 x2 t.a1)).0)
          (asks_2 a_config x1 x2 t.a2)).1 in
      Stage-keeps (request_1 a_config x1 x2 ∷ [])
        (λ sent there.
          (All-split (λ p. Memᴰ p sent) (map (answer_for a_config) replies)
            (request_1 a_config x1 x2 ∷ []) there).1)
        (greets {ps = []} x1 x2 t.a1 t.a2 sa pa l replies v.at_1 v.at_2 v.server_1 v.server_2
          v.small_id opens
          (sent-on_message id _ (asks_2 a_config x1 x2 t.a2)
            (asks-concerns a_config x1 x2 t.a1 t.a2 v.small_id).1)
          (record { sent = []; reached = started; there = tt }))

  known_apart : (x1.addr ≡ x2.addr) × (x1.addr ≢ 0) × (y.addr ≢ 0) × (x1.addr ≢ y.addr)
  known_apart =
      let e1 = w.a.from_host x1 v.at_1.shown in
      let e2 = w.a.from_host x2 v.at_2.shown in
      let ey = w.b.from_host y v.at_y.shown in
      (
        e1 ∙ sym e2,
        λ e. v.world.a_known (sym e1 ∙ e),
        λ e. v.world.b_known (sym ey ∙ e),
        λ e. v.world.apart (sym e1 ∙ e ∙ ey),
      )

  pub both_greeted :
      Stage f d w
        (end_server t a_config b_config x1 x2 y)
        (active (posted l))
        (active (posted (begun d b_config y sb pb)))
        (reply_a t a_config b_config x1 x2 y
          ∷ reply_b t a_config b_config x1 x2 y
          ∷ request_1 b_config y y
          ∷ request_1 a_config x1 x2
          ∷ [])
  unfolding serve
  both_greeted =
      let host : Address → ℕ = λ a. (stun_server_addr a).addr in
      Stage-mirror (
        greets y y t.b1 t.b2 sb pb (begun d b_config y sb pb) _ v.at_y v.at_y
          (ap host v.same_1 ∙ v.server_1) (ap host v.same_2 ∙ v.server_2)
          (subst (λ i. i < 2 ^ 32) (sym v.same_id) v.small_id)
          (greet_second-begun d b_config y sb pb v.direct)
          (introduced t a_config b_config x1 x2 y prompt v.same_id v.small_id known_apart.0
            known_apart.1 known_apart.2 known_apart.3)
          (Stage-mirror first_greeted))
