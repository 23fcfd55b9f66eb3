-- ===== src/Network/Predicting/Rounds.antt =====
-- Rounds of a client of p2p_ps_connector.h behind a symmetric NAT: it scans for its peer, and hears
-- the peer's answer.
use p2p_ps_stun.Prelude.{
  ℕ, pos, ◌<◌, ◌≡◌, refl, true, false, not, ◌||◌, [], ◌∷◌, ◌++◌, ◌==◌, ne→==, arith,
}
use p2p_ps_stun.Wire.{SockaddrIn, Payload, stun_server_addr}
use p2p_ps_stun.Wire.MessageType
use p2p_ps_stun.Double.{Double}
use p2p_ps_stun.Ports.{PortManager}
use p2p_ps_stun.Socket.{UdpSocket, closes, wait_receive}
use p2p_ps_stun.Connector.Scan.{
  Attempt, Opened, scan_range, closes_all, swap_in, take_ready, after_scan, try_scan,
  try_start_ps_connection,
}
use p2p_ps_stun.Connector.Predicting.{
  Config, Loop, Round, goes_on, after_attempt, on_message, round, is_over, result_of,
}
use p2p_ps_stun.Network.{Packet}
use p2p_ps_stun.Network.Schedule.{told}
use p2p_ps_stun.Network.Predicting.Schedule.{turn}
use p2p_ps_stun.Network.Predicting.Replies.{IsPrediction, IsConnected, told_round}
use p2p_ps_stun.Network.Predicting.Sweep.{sweep, IsHit, swept, all_open, swept-IsHit}

-- The round in which a client is told of its peer and scans.
abbrev pub sweep_turn : (d : Double) → ℕ → Packet → Round d
sweep_turn d j p = record { event = told p; trial = sweep d j p }

module _ (f d : Double) (c : Config) (y : SockaddrIn) (p : Packet) (j : ℕ) where
  -- A scan whose first ready socket is known.
  abbrev attempted : UdpSocket → (o : Opened) → IsHit y j o.sockets → Attempt
  attempted s o hit = record {
    success = pos 1;
    socket = hit.ready;
    ports = o.ports;
    sent = o.sent;
    closed = closes s ++ closes_all (hit.before ++ s ∷ hit.after);
  }

  scan_hits :
      (s : UdpSocket) (o : Opened) (hit : IsHit y j o.sockets)
      → o.failed ≡ false
      → after_scan d s (sweep d j p) o ≡ attempted s o hit
  unfolding after_scan take_ready swap_in
  scan_hits s o hit up = rw (up, hit.first) refl

  attempt_scans :
      (base_port : ℕ) (s : UdpSocket) (ports : PortManager) (reply : Payload)
      → c.is_sym_nat ≡ true
      → IsPrediction f y reply 0
      → (hit : IsHit y j (swept d c base_port y p j ports 0 scan_range).sockets)
      → try_start_ps_connection d f c.is_sym_nat c.transaction_id base_port reply s ports
          (sweep d j p)
        ≡ attempted s (swept d c base_port y p j ports 0 scan_range) hit
  unfolding try_start_ps_connection try_scan
  attempt_scans base_port s ports reply symmetric v hit =
      rw
        (
          symmetric,
          v.determined,
          v.aimed,
          ne→== v.port 0 v.known,
          scan_hits s (swept d c base_port y p j ports 0 scan_range) hit
              (all_open d c base_port y p j ports 0 scan_range),
        )
        refl

  pub sweep_round :
      (l : Loop)
      → c.is_sym_nat ≡ true
      → IsPrediction f y (p.msg.message) 0
      → p.msg.type ≡ MessageType.ps_bind_reply
      → p.from.addr ≡ (stun_server_addr c.stun_server_address1).addr
      → l.connection_established ≡ false
      → l.sent ≡ []
      → j < scan_range
      → (l' : Loop) × (round f d c (sweep_turn d j p) l ≡ goes_on l')
        × (l'.socket.target_address ≡ y)
        × (is_over l' ≡ false)
        × (l'.sent ≡ (swept d c l.base_port y p j l.ports 0 scan_range).sent)
  unfolding after_attempt is_over
  sweep_round l symmetric predicted kind from down empty h =
      let s = record (l.socket) { peer_address = p.from } in
      let hit = swept-IsHit d c l.base_port y p j l.ports 0 scan_range (omega arith) h in
      rw
        (
          told_round f d c p (sweep d j p) l kind from,
          attempt_scans l.base_port s l.ports (p.msg.message) symmetric predicted hit,
          empty,
          down,
        )
        (_, refl, hit.target, refl, refl)

-- The peer's answer, from the address that the socket sends to, connects a client.
pub response_round :
    (f d : Double) (c : Config) (p : Packet) (l : Loop)
    → p.msg.type ≡ MessageType.client_bind_response
    → p.from ≡ l.socket.target_address
    → (l' : Loop) × (round f d c (turn d 0 p) l ≡ goes_on l')
      × IsConnected l.socket.target_address l'
      × (l'.sent ≡ l.sent)
unfolding round on_message wait_receive result_of
response_round f d c p l kind from =
    let same : (not (p.from.addr == l.socket.target_address.addr)
          || not (p.from.port == l.socket.target_address.port))
        ≡ false =
      rw from (ground arith) in
    rw (kind, same) (_, refl, record { up = refl; target = refl; success = refl }, refl)
