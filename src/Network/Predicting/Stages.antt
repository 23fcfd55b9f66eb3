-- ===== src/Network/Predicting/Stages.antt =====
-- Courses of the network of two clients of p2p_ps_connector.h in which all that is sent arrives.
use mathlib.Core.List.{Memᴰ}
use p2p_ps_stun.Prelude.{
  ℕ, ◌≡◌, ◌⊎◌, refl, subst, List, [], ◌∷◌, ◌++◌, map, All, All-append, All-map,
}
use p2p_ps_stun.Wire.{SockaddrIn, stun_server_addr}
use p2p_ps_stun.Double.{Double}
use p2p_ps_stun.Server.Types.{Server, Sent, Handle, socket_0, socket_1, Datagram}
use p2p_ps_stun.Server.Loop.{on_message}
use p2p_ps_stun.Server.History.Isolation.{ack_to}
use p2p_ps_stun.Connector.Types.{Outgoing}
use p2p_ps_stun.Connector.Predicting.{Config}
use p2p_ps_stun.Network.{Packet, packet, answer}
use p2p_ps_stun.Network.Predicting.{
  Host, World, Client, Sends, Answers, Act, Network, Step, Reach, later,
}
use p2p_ps_stun.Network.Predicting.Truth.{mirror}

-- Where a course stands: the server, the clients, and packets that have been sent.
pub record Stage (f d : Double) (w : World) (s : Server) (k l : Client) (ps : List Packet)
    : Type 0 where
  pub sent : List Packet
  pub reached : Reach f d w (record { server = s; first = k; second = l; sent = sent })
  pub there : All (λ p. Memᴰ p sent) ps

mem-left : {p : Packet} (xs ys : List Packet) → Memᴰ p xs → Memᴰ p (xs ++ ys)
mem-left [] ys m = elim m [ ]
mem-left (x ∷ xs) ys (Memᴰ.head e) = Memᴰ.head e
mem-left (x ∷ xs) ys (Memᴰ.tail m) = Memᴰ.tail (mem-left xs ys m)

mem-right : {p : Packet} (xs ys : List Packet) → Memᴰ p ys → Memᴰ p (xs ++ ys)
mem-right [] ys m = m
mem-right (x ∷ xs) ys m = Memᴰ.tail (mem-right xs ys m)

all_of : (xs : List Packet) → All (λ p. Memᴰ p xs) xs
all_of [] = tt
all_of (x ∷ xs) = (
  Memᴰ.head refl,
  All-map (λ p. Memᴰ p xs) (λ p. Memᴰ p (x ∷ xs)) (λ p. Memᴰ.tail) xs (all_of xs),
)

-- What was sent is still there when more is sent.
still_there :
    (xs ys ps : List Packet) → All (λ p. Memᴰ p ys) ps → All (λ p. Memᴰ p (xs ++ ys)) (xs ++ ps)
still_there xs ys ps h =
    All-append (λ p. Memᴰ p (xs ++ ys)) xs ps
      (All-map (λ p. Memᴰ p xs) (λ p. Memᴰ p (xs ++ ys)) (λ p. mem-left xs ys) xs (all_of xs))
      (All-map (λ p. Memᴰ p ys) (λ p. Memᴰ p (xs ++ ys)) (λ p. mem-right xs ys) ps h)

-- What a client at the address `x` of its host sends.
pub packets-Sends :
    (h : Host) (x : SockaddrIn) → h.Shows x → (os : List Outgoing) → Sends h os (map (packet x) os)
packets-Sends h x shown [] = Sends.nothing
packets-Sends h x shown (o ∷ os) = Sends.one_more shown refl refl (packets-Sends h x shown os)

-- Where the server's sockets are for a client, and a message of the server from there.
abbrev at : Config → Handle → SockaddrIn
at c socket_0 = stun_server_addr c.stun_server_address1
at c socket_1 = stun_server_addr c.stun_server_address2

abbrev pub answer_for : Config → Sent → Packet
answer_for c m = answer (at c m.via) m

packets-Answers : (c : Config) (ms : List Sent) → Answers ms (map (answer_for c) ms)
packets-Answers c [] = Answers.nothing
packets-Answers c (m ∷ ms) = Answers.one_more refl refl (packets-Answers c ms)

-- A packet as the server receives it at the time `t`.
abbrev pub received : Handle → ℕ → Packet → Datagram
received h t p = record {
  handle = h;
  msg = p.msg;
  peer_addr = p.from;
  check_time = t;
  stamp_time = t;
}

module _ {f d : Double} {w : World} {s : Server} {k l : Client} {ps : List Packet} where
  -- A client's step adds what it sends.
  pub first_acts_as :
      {k' : Client} {os : List Outgoing} {out : List Packet}
      → Sends w.a os out
      → Stage f d w s k l ps
      → ((sent : List Packet) → All (λ p. Memᴰ p sent) ps → Act f d w.a w.a_config sent k k' os)
      → Stage f d w s k' l (out ++ ps)
  first_acts_as {out} sends g act = record {
    sent = out ++ g.sent;
    reached = later g.reached (Step.first_acts (act g.sent g.there) sends);
    there = still_there out g.sent ps g.there;
  }

  -- The server's step adds its answers.
  server_answers :
      (c : Config) (h : Handle) (t : ℕ) (p : Packet)
      → (p.to.addr ≡ w.server1) ⊎ (p.to.addr ≡ w.server2)
      → Stage f d w s k l (p ∷ ps)
      → Stage f d w
          (on_message s (received h t p)).0
          k
          l
          (map (answer_for c) (on_message s (received h t p)).1 ++ ps)
  server_answers c h t p to g =
      let out = map (answer_for c) (on_message s (received h t p)).1 in
      record {
        sent = out ++ g.sent;
        reached = later g.reached (
            Step.serves p (received h t p) (g.there.0) to (record { given = refl; given_by = refl })
              (packets-Answers c (on_message s (received h t p)).1));
        there = still_there out g.sent ps g.there.1;
      }

  -- A request is acknowledged first.
  pub request_is_served :
      (c : Config) (h : Handle) (t : ℕ) (p : Packet) (replies : List Sent)
      → (p.to.addr ≡ w.server1) ⊎ (p.to.addr ≡ w.server2)
      → (on_message s (received h t p)).1 ≡ ack_to (received h t p) ∷ replies
      → Stage f d w s k l (p ∷ ps)
      → Stage f d w
          (on_message s (received h t p)).0
          k
          l
          (answer_for c (ack_to (received h t p)) ∷ map (answer_for c) replies ++ ps)
  request_is_served c h t p replies to e g =
      subst
        (λ out. Stage f d w (on_message s (received h t p)).0 k l (map (answer_for c) out ++ ps)) e
        (server_answers c h t p to g)

  pub Stage-keeps :
      (qs : List Packet)
      → ((sent : List Packet) → All (λ p. Memᴰ p sent) ps → All (λ p. Memᴰ p sent) qs)
      → Stage f d w s k l ps
      → Stage f d w s k l qs
  Stage-keeps qs keeps g = record {
    sent = g.sent;
    reached = g.reached;
    there = keeps g.sent g.there;
  }

-- The second client's steps are the first client's in the mirrored world.
Step-mirror :
    {f d : Double} {w : World} {n m : Network}
    → Step f d w n m
    → Step f d
        (mirror w)
        (record n { first = n.second; second = n.first })
        (record m { first = m.second; second = m.first })
Step-mirror (Step.first_acts act sends) = Step.second_acts act sends
Step-mirror (Step.second_acts act sends) = Step.first_acts act sends
Step-mirror (Step.serves p e mem to r answers) = Step.serves p e mem to r answers

Reach-mirror :
    {f d : Double} {w : World} {n : Network}
    → Reach f d w n
    → Reach f d (mirror w) (record n { first = n.second; second = n.first })
Reach-mirror Reach.started = Reach.started
Reach-mirror (later r st) = later (Reach-mirror r) (Step-mirror st)

pub Stage-mirror :
    {f d : Double} {w : World} {s : Server} {k l : Client} {ps : List Packet}
    → Stage f d w s k l ps
    → Stage f d (mirror w) s l k ps
Stage-mirror g = record { sent = g.sent; reached = Reach-mirror g.reached; there = g.there }
