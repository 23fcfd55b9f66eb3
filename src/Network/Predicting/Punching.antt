-- ===== src/Network/Predicting/Punching.antt =====
-- A client of p2p_ps_connector.h behind a symmetric NAT and one behind another NAT connect through the
-- server of udp_p2p_server.h, if the port of one of the scan's sockets is predicted.
use p2p_ps_stun.Prelude.{ℕ, ◌<◌, ◌≡◌, true, false, [], ◌∷◌}
use p2p_ps_stun.Wire.{SockaddrIn, Address, stun_server_addr}
use p2p_ps_stun.Double.{Double}
use p2p_ps_stun.Ports.{PortManager}
use p2p_ps_stun.Server.Types.{Server}
use p2p_ps_stun.Socket.{UdpSocket}
use p2p_ps_stun.Connector.Scan.{scan_range}
use p2p_ps_stun.Connector.Predicting.{Loop, is_over}
use p2p_ps_stun.Network.{Packet, packet}
use p2p_ps_stun.Network.Predicting.{World, active, posted}
use p2p_ps_stun.Network.Predicting.Replies.{call, called, respond, IsPrediction}
use p2p_ps_stun.Network.Predicting.Stages.{Stage}
use p2p_ps_stun.Network.Predicting.Course.{IsMapped, request_1, ack_1, ack_2}
use p2p_ps_stun.Network.Predicting.Introducing.{
  IsMeeting, Times, IsPrompt, end_server, reply_a, reply_b, begun,
}
use p2p_ps_stun.Network.Predicting.Sweep.{opened_by_helper}

-- The first client is behind a symmetric NAT, which shows the sockets of its scan at the addresses
-- `xs`. One of these has the port that the second client predicts at the time `now` from the two
-- addresses that the server has seen and when it saw them.
pub record IsPredicted (f : Double) (w : World) (x1 x2 : SockaddrIn) (xs : ℕ → SockaddrIn)
    (t : Times) (j now : ℕ) : Type 0 where
  pub symmetric : w.a_config.is_sym_nat ≡ true
  pub scanning : (i : ℕ) → IsMapped w.a (xs i)
  pub in_scan : j < scan_range
  pub predicted :
      IsPrediction f (xs j) (record { addr_one = x1; addr_two = x2; t1 = t.a1; t2 = t.a2 }) now

module _ (f d : Double) (w : World) (x1 x2 y : SockaddrIn) (xs : ℕ → SockaddrIn) (j now : ℕ)
    (v : IsMeeting w x1 x2 y) (t : Times) (prompt : IsPrompt t)
    (u : IsPredicted f w x1 x2 xs t j now) (sa sb : UdpSocket) (pa pb : PortManager) where
  open w use {a_config, b_config}

  abbrev end : Server
  end = end_server t a_config b_config x1 x2 y

  abbrev told_a : Packet
  told_a = reply_a t a_config b_config x1 x2 y

  abbrev told_b : Packet
  told_b = reply_b t a_config b_config x1 x2 y

  abbrev asked_a : Packet
  asked_a = request_1 a_config x1 x2

  abbrev asked_b : Packet
  asked_b = request_1 b_config y y

  abbrev begun_a : Loop
  begun_a = posted (opened_by_helper d a_config sa pa (ack_1 a_config x1 x2) (ack_2 a_config x1 x2))

  abbrev begun_b : Loop
  begun_b = posted (begun d b_config y sb pb)

  abbrev called_b : Loop
  called_b = called b_config (xs j) told_b begun_b

  abbrev call_a : Packet
  call_a = packet (xs j) (call a_config y)

  abbrev call_b : Packet
  call_b = packet y (call b_config (xs j))

  abbrev host : Address → ℕ
  host a = (stun_server_addr a).addr

  -- The first client, after its scan.
  record Scanned : Type 0 where
    loop : Loop
    target : loop.socket.target_address ≡ y
    more : is_over loop ≡ false
    empty : loop.sent ≡ []
    stage : Stage f d w end (active loop) (active (posted called_b)) (call_a ∷ call_b ∷ [])

  -- The second client's answer, to the socket whose port it predicted.
  abbrev response : Packet
  response = packet y (respond b_config (xs j))
