-- ===== src/Network.antt =====
-- The server of udp_p2p_server.h and two clients that run `connect` of p2p_connector.h, joined by a
-- network. Every client is seen under one public address, as behind a NAT that maps an endpoint to
-- the same port for every destination; what a NAT filters out is lost.
pub mod Guidance
pub mod Truth
pub mod Serving
pub mod Keeping
pub mod Invariant
pub mod Safety
pub mod Schedule
pub mod Course
pub mod Connecting
pub mod Aim
pub mod Predicting
use p2p_ps_stun.Prelude.{ℕ, is_positive, ◌≡◌, Bool, true, false, List, [], ◌∷◌, ◌++◌, map}
use p2p_ps_stun.Wire.{SockaddrIn, Message, stun_server_addr}
use p2p_ps_stun.Server.Types.{Server, new_server, Sent, Datagram}
use p2p_ps_stun.Server.Loop.{on_message}
use p2p_ps_stun.Socket.{UdpSocket, Reception}
use p2p_ps_stun.Connector.Types.{Outgoing, Event}
use p2p_ps_stun.Connector.Basic.{Config, Loop, Greeting, looping, greet, round, is_over, is_from}
use p2p_ps_stun.Connector.Basic.Rounds.{IsSilent}
use p2p_ps_stun.Connector.Basic.Outcome.{first_request}

-- A datagram under way.
pub record Packet : Type 0 where
  pub from : SockaddrIn
  pub to : SockaddrIn
  pub msg : Message

-- The public addresses of the two clients and the server, and what the clients are told.
pub record World : Type 0 where
  pub a : SockaddrIn
  pub b : SockaddrIn
  pub server : SockaddrIn
  pub a_config : Config
  pub b_config : Config

-- Both clients know the server's address, and the three endpoints differ.
pub record IsWorld (w : World) : Type 0 where
  pub a_server : stun_server_addr w.a_config.stun_server_address ≡ w.server
  pub b_server : stun_server_addr w.b_config.stun_server_address ≡ w.server
  pub apart : is_from w.a w.b ≡ false
  pub a_apart : is_from w.a w.server ≡ false
  pub b_apart : is_from w.b w.server ≡ false

-- A client before `connect`, between its request and the acknowledgement, and in the loop. A client
-- that fails takes no further step.
pub data Client : Type 0 where
  idle : Client
  greeting : UdpSocket → Client
  active : Loop → Client

pub record Network : Type 0 where
  pub server : Server
  pub first : Client
  pub second : Client
  pub flight : List Packet

abbrev pub start : Network
start = record { server = new_server; first = idle; second = idle; flight = [] }

-- What a client at `x` sends, and what the server at `x` sends.
abbrev pub packet : SockaddrIn → Outgoing → Packet
packet x o = record { from = x; to = o.to; msg = o.msg }

abbrev pub answer : SockaddrIn → Sent → Packet
answer x m = record { from = x; to = m.to; msg = m.msg }

-- `select` and `recvfrom` give a packet.
pub record Hears (r : Reception) (p : Packet) : Type 0 where
  pub selected : is_positive r.select_result ≡ true
  pub received : is_positive r.result ≡ true
  pub told : r.msg ≡ p.msg
  pub heard_from : r.sender ≡ p.from

pub record Receives (d : Datagram) (p : Packet) : Type 0 where
  pub given : d.msg ≡ p.msg
  pub given_by : d.peer_addr ≡ p.from

-- `sent` is the outbox of a client's loop: its packets go to the network at the end of a round.
abbrev pub posted : Loop → Loop
posted l = record l { sent = [] }

-- A step of a client at `x`, with the packet that it takes from the network and those that it adds.
pub data Act (x : SockaddrIn) (c : Config)
    : Client → List Packet → Client → List Packet → Type 0 where
  begins : (s : UdpSocket) → Act x c idle [] (greeting s) (packet x (first_request c) ∷ [])
  acknowledged :
      {s : UdpSocket} {p : Packet} {l : Loop} (g : Greeting)
      → p.to ≡ x
      → Hears g.reception p
      → greet c s g ≡ looping l
      → Act x c (greeting s) (p ∷ []) (active (posted l)) []
  hears :
      {l : Loop} {p : Packet} (e : Event)
      → p.to ≡ x
      → Hears e.reception p
      → is_over l ≡ false
      → Act x c
          (active l)
          (p ∷ [])
          (active (posted (round c e l)))
          (map (packet x) (round c e l).sent)
  hears_nothing :
      {l : Loop} (e : Event)
      → IsSilent e
      → is_over l ≡ false
      → Act x c (active l) [] (active (posted (round c e l))) (map (packet x) (round c e l).sent)

-- A step of the network: a client's, the server's with a packet, or a packet is lost. Packets may
-- overtake one another.
pub data Step (w : World) (n : Network) : Network → Type 0 where
  first_acts :
      {taken added : List Packet} {k : Client} (before after : List Packet)
      → n.flight ≡ before ++ taken ++ after
      → Act w.a w.a_config n.first taken k added
      → Step w n (record n { first = k; flight = before ++ added ++ after })
  second_acts :
      {taken added : List Packet} {k : Client} (before after : List Packet)
      → n.flight ≡ before ++ taken ++ after
      → Act w.b w.b_config n.second taken k added
      → Step w n (record n { second = k; flight = before ++ added ++ after })
  serves :
      {p : Packet} (before after : List Packet) (d : Datagram)
      → n.flight ≡ before ++ (p ∷ []) ++ after
      → p.to ≡ w.server
      → Receives d p
      → Step w n (record n {
        server = (on_message n.server d).0;
        flight = before ++ map (answer w.server) (on_message n.server d).1 ++ after;
      })
  loses :
      (p : Packet) (before after : List Packet)
      → n.flight ≡ before ++ (p ∷ []) ++ after
      → Step w n (record n { flight = before ++ after })

pub data Reach (w : World) : Network → Type 0 where
  started : Reach w start
  later : {n m : Network} → Reach w n → Step w n m → Reach w m
