-- ===== src/Network/Aim.antt =====
-- What a client of p2p_ps_connector.h behind a symmetric NAT does with the reply that the server of
-- udp_p2p_server.h sends it.
use p2p_ps_stun.Prelude.{
  ℕ, ◌+◌, ◌-◌, ◌*◌, ◌/◌, ◌^◌, ◌<◌, ◌≡◌, refl, ◌⊎◌, true, false, List, [], ◌∷◌, length, none, All,
  ne→==, arith,
}
use p2p_ps_stun.Wire.{SockaddrIn, Payload, htons, ntohs}
use p2p_ps_stun.Double.{Double}
use p2p_ps_stun.Server.Types.{Server, Sent, Datagram}
use p2p_ps_stun.Server.Loop.{on_message, serve}
use p2p_ps_stun.Server.Prediction.Machine.{lookup}
use p2p_ps_stun.Server.History.Isolation.{only, concerns, ack_to}
use p2p_ps_stun.Server.History.Matching.{Meeting, introduces, pair_is_introduced}
use p2p_ps_stun.Ports.{PortManager}
use p2p_ps_stun.Socket.{UdpSocket}
use p2p_ps_stun.Connector.Target.Drift.{IsExact, Elapsed, rising_prediction}
use p2p_ps_stun.Connector.Scan.{scan_range, Trial, open_scan, try_scan, try_start_ps_connection}
use p2p_ps_stun.Connector.Scan.Sent.{after_scan-sent}
use p2p_ps_stun.Connector.Scan.Requests.{Asks, open_scan-Requests}

-- The ports of a peer's two requests rise by less than 250, and the port that `k` such rises and half
-- of the scan range lead to is a port.
pub record IsRising (k first_port second_port : ℕ) : Type 0 where
  pub up : first_port < second_port
  pub near : second_port < first_port + 250
  pub fits : second_port + k * (second_port - first_port) + scan_range / 2 < 2 ^ 16

-- The peer's host, at that port.
abbrev pub expected : ℕ → SockaddrIn → SockaddrIn → SockaddrIn
expected k one two =
    let p1 = ntohs one.port in
    let p2 = ntohs two.port in record one { port = htons (p2 + k * (p2 - p1) + scan_range / 2) }

scan_starts :
    (d f : Double) (id base_port k : ℕ) (reply : Payload) (s : UdpSocket) (ports : PortManager)
    (t : Trial d)
    → IsExact f
    → Elapsed k reply.t1 reply.t2 t.time_now
    → IsRising k (ntohs (reply.addr_one.port)) (ntohs (reply.addr_two.port))
    → try_start_ps_connection d f true id base_port reply s ports t
      ≡ try_scan d id base_port (expected k reply.addr_one reply.addr_two) s ports t
unfolding try_start_ps_connection
scan_starts d f id base_port k reply s ports t exact e r =
    let p1 = ntohs (reply.addr_one.port) in
    let p2 = ntohs (reply.addr_two.port) in
    let port = p2 + k * (p2 - p1) + scan_range / 2 in
    rw
      (
        rising_prediction f p1 p2 k reply.t1 reply.t2 scan_range t.time_now exact e r.up r.near
            r.fits,
        ne→== port 0 (λ h. omega (arith, h)),
      )
      refl

scan-Asks :
    (d : Double) (id base_port : ℕ) (addr : SockaddrIn) (s : UdpSocket) (ports : PortManager)
    (t : Trial d)
    → id < 2 ^ 32
    → (open_scan d id base_port addr ports t.calls 0 scan_range).failed ≡ false
    → (length (try_scan d id base_port addr s ports t).sent ≡ 50)
      × All (Asks id addr) (try_scan d id base_port addr s ports t).sent
unfolding try_scan
scan-Asks d id base_port addr s ports t h up =
    let o = open_scan d id base_port addr ports t.calls 0 scan_range in
    rw (after_scan-sent d s t o)
      (open_scan-Requests d id base_port addr ports t.calls 0 scan_range h up)

-- Two clients of different hosts ask twice each for an id that the server does not know, as for
-- `pair_is_introduced`, and the second client's ports rise by less than 250 from its first request to
-- its second, no port wrapping around. Then the server sends a message to the first client's first
-- address, from which that client, behind a symmetric NAT, sends 50 requests with its transaction id,
-- if all its sockets open: all to the second client's host, at the port that is `k` such rises and
-- half of the scan range after its second one, when arithmetic is exact and, on the first client's
-- clock, the time since the second client's second request and 100 ms are `k` times the time between
-- its two requests and 1 ms.
pub introduced_client_scans_peer :
    (id : ℕ) (s : Server) (ds : List Datagram) (a1 a2 b1 b2 : Datagram) (d f : Double)
    (own_id base_port k : ℕ) (socket : UdpSocket) (ports : PortManager) (t : Trial d)
    → Meeting a1 a2 b1 b2
    → lookup id s ≡ none
    → (only id ds ≡ a1 ∷ b1 ∷ a2 ∷ []) ⊎ (only id ds ≡ a1 ∷ a2 ∷ b1 ∷ [])
    → concerns id b2 ≡ true
    → IsExact f
    → Elapsed k b1.stamp_time b2.stamp_time t.time_now
    → IsRising k (ntohs (b1.peer_addr.port)) (ntohs (b2.peer_addr.port))
    → own_id < 2 ^ 32
    → (open_scan d own_id base_port
        (expected k b1.peer_addr b2.peer_addr)
        ports
        t.calls
        0
        scan_range).failed
      ≡ false
    → (m : Sent) × (others : List Sent) × ((on_message (serve s ds).0 b2).1
        ≡ ack_to b2 ∷ m ∷ others)
      × (m.to ≡ a1.peer_addr)
      × (let a = try_start_ps_connection d f true own_id base_port (m.msg.message) socket ports t in
          (length a.sent ≡ 50) × All (Asks own_id (expected k b1.peer_addr b2.peer_addr)) a.sent)
introduced_client_scans_peer id s ds a1 a2 b1 b2 d f own_id base_port k socket ports t m fresh order
      c exact e r small opened =
    let m_a = introduces a1.peer_addr b1 b2 b1.stamp_time b2.stamp_time in
    let starts = scan_starts d f own_id base_port k (m_a.msg.message) socket ports t exact e r in
    (
      m_a,
      _,
      (pair_is_introduced id s ds a1 a2 b1 b2 m fresh order c).0,
      refl,
      rw starts (
          scan-Asks d own_id base_port (expected k b1.peer_addr b2.peer_addr) socket ports t small
            opened),
    )
