-- ===== src/Network/Predicting.antt =====
-- The server of udp_p2p_server.h and two clients that run `connect` of p2p_ps_connector.h, joined by
-- a network. A packet that was sent may arrive at any time and any number of times, or never.
pub mod Guidance
pub mod Truth
pub mod Serving
pub mod Invariant
pub mod Safety
pub mod Schedule
pub mod Replies
pub mod Stages
pub mod Course
pub mod Introducing
pub mod Connecting
pub mod Sweep
pub mod Rounds
pub mod Punching
use mathlib.Core.List.{Memᴰ}
use p2p_ps_stun.Prelude.{ℕ, is_positive, ◌≡◌, ◌≢◌, ◌⊎◌, false, List, [], ◌∷◌, ◌++◌}
use p2p_ps_stun.Wire.{SockaddrIn, Message, zero_message}
use p2p_ps_stun.Double.{Double}
use p2p_ps_stun.Ports.{PortManager}
use p2p_ps_stun.Server.Types.{Server, new_server, Sent, Datagram}
use p2p_ps_stun.Server.Loop.{on_message}
use p2p_ps_stun.Socket.{UdpSocket, Reception}
use p2p_ps_stun.Connector.Types.{ConnectResult, Outgoing}
use p2p_ps_stun.Connector.Predicting.{
  Config, Loop, Round, Greeting, goes_on, returns, looping, round, is_over, request, greet_first,
  greet_second,
}
use p2p_ps_stun.Network.{Packet, Hears, Receives}

-- A host as others see it: the addresses that its messages come from, and which packets reach it
-- after all that has been sent. A NAT decides both.
pub record Host : Type 1 where
  pub host : ℕ
  pub Shows : SockaddrIn → Type 0
  pub Admits : List Packet → Packet → Type 0
  pub from_host : (x : SockaddrIn) → Shows x → x.addr ≡ host
  pub to_host : (sent : List Packet) (p : Packet) → Admits sent p → p.to.addr ≡ host

-- The two clients' hosts, the hosts of the server, and what the clients are told.
pub record World : Type 1 where
  pub a : Host
  pub b : Host
  pub server1 : ℕ
  pub server2 : ℕ
  pub a_config : Config
  pub b_config : Config

-- The two clients have addresses, and are on different hosts.
pub record IsWorld (w : World) : Type 0 where
  pub a_known : w.a.host ≢ 0
  pub b_known : w.b.host ≢ 0
  pub apart : w.a.host ≢ w.b.host

-- A client before `connect`; after its first request; after its second one, over what the buffer
-- holds from the first acknowledgement; in the loop; and when `connect` has returned early.
pub data Client : Type 0 where
  idle : Client
  first : UdpSocket → PortManager → Client
  second : Message → Loop → Client
  active : Loop → Client
  ended : Client

-- The packets that carry what a client at the host `x` sends.
pub data Sends (x : Host) : List Outgoing → List Packet → Type 0 where
  nothing : Sends x [] []
  one_more :
      {o : Outgoing} {os : List Outgoing} {p : Packet} {ps : List Packet}
      → x.Shows p.from
      → p.to ≡ o.to
      → p.msg ≡ o.msg
      → Sends x os ps
      → Sends x (o ∷ os) (p ∷ ps)

-- The packets that carry what the server sends.
pub data Answers : List Sent → List Packet → Type 0 where
  nothing : Answers [] []
  one_more :
      {m : Sent} {ms : List Sent} {p : Packet} {ps : List Packet}
      → p.to ≡ m.to
      → p.msg ≡ m.msg
      → Answers ms ps
      → Answers (m ∷ ms) (p ∷ ps)

-- `sent` is the outbox of a client's loop: its messages go to the network at the end of a round.
abbrev pub posted : Loop → Loop
posted l = record l { sent = [] }

-- The packets that a step takes from the network may be heard again. A round is one step: what the
-- `select` of an attempt finds is an argument of the round, whatever has been sent so far.
pub data Act (f d : Double) (x : Host) (c : Config) (sent : List Packet)
    : Client → Client → List Outgoing → Type 0 where
  begins :
      (s : UdpSocket) (ports : PortManager)
      → Act f d x c sent idle (first s ports) (request c c.stun_server_address1 zero_message ∷ [])
  first_acknowledged :
      {s : UdpSocket} {ports : PortManager} {l : Loop} (p : Packet) (g : Greeting d)
      → Memᴰ p sent
      → x.Admits sent p
      → Hears g.reception_1 p
      → greet_first d c s ports g ≡ looping l
      → Act f d x c sent
          (first s ports)
          (second (g.reception_1.msg) l)
          (request c c.stun_server_address2 (g.reception_1.msg) ∷ [])
  second_acknowledged :
      {l l' : Loop} {m : Message} (p : Packet) (g : Greeting d)
      → Memᴰ p sent
      → x.Admits sent p
      → g.reception_1.msg ≡ m
      → Hears g.reception_2 p
      → greet_second d c g l ≡ looping l'
      → Act f d x c sent (second m l) (active (posted l')) []
  hears :
      {l l' : Loop} (p : Packet) (r : Round d)
      → Memᴰ p sent
      → x.Admits sent p
      → Hears r.event.reception p
      → is_over l ≡ false
      → round f d c r l ≡ goes_on l'
      → Act f d x c sent (active l) (active (posted l')) l'.sent
  hears_and_fails :
      {l l' : Loop} {q : ConnectResult} (p : Packet) (r : Round d)
      → Memᴰ p sent
      → x.Admits sent p
      → Hears r.event.reception p
      → is_over l ≡ false
      → round f d c r l ≡ returns q l'
      → Act f d x c sent (active l) ended l'.sent
  hears_nothing :
      {l l' : Loop} (r : Round d)
      → is_positive r.event.reception.select_result ≡ false
      → is_over l ≡ false
      → round f d c r l ≡ goes_on l'
      → Act f d x c sent (active l) (active (posted l')) l'.sent

pub record Network : Type 0 where
  pub server : Server
  pub first : Client
  pub second : Client
  pub sent : List Packet

abbrev pub start : Network
start = record { server = new_server; first = idle; second = idle; sent = [] }

-- A step of the network: a client's, or the server's with a packet to one of its hosts.
pub data Step (f d : Double) (w : World) (n : Network) : Network → Type 0 where
  first_acts :
      {k : Client} {os : List Outgoing} {ps : List Packet}
      → Act f d w.a w.a_config n.sent n.first k os
      → Sends w.a os ps
      → Step f d w n (record n { first = k; sent = ps ++ n.sent })
  second_acts :
      {k : Client} {os : List Outgoing} {ps : List Packet}
      → Act f d w.b w.b_config n.sent n.second k os
      → Sends w.b os ps
      → Step f d w n (record n { second = k; sent = ps ++ n.sent })
  serves :
      {ps : List Packet} (p : Packet) (e : Datagram)
      → Memᴰ p n.sent
      → (p.to.addr ≡ w.server1) ⊎ (p.to.addr ≡ w.server2)
      → Receives e p
      → Answers (on_message n.server e).1 ps
      → Step f d w n (record n { server = (on_message n.server e).0; sent = ps ++ n.sent })

pub data Reach (f d : Double) (w : World) : Network → Type 0 where
  started : Reach f d w start
  later : {n m : Network} → Reach f d w n → Step f d w n m → Reach f d w m
