-- ===== src/Connector/Scan/Sent.antt =====
-- Where the requests of the scan of p2p_ps_connector.h go, however the scan ends.
use p2p_ps_stun.Prelude.{
  ℕ, zero, suc, minus_one, ◌==◌, ◌+◌, ◌≡◌, refl, inl, inr, Bool, Bool-cases, if_both, List, [], All,
  All-append, Option, none, some, arith,
}
use p2p_ps_stun.Wire.{SockaddrIn, Payload, htons, ntohs}
use p2p_ps_stun.Wire.MessageType
use p2p_ps_stun.Double.{Double}
use p2p_ps_stun.Ports.{PortManager}
use p2p_ps_stun.Socket.{UdpSocket, set_target_address}
use p2p_ps_stun.Connector.Types.{Outgoing, make_message, try_connect_to_client}
use p2p_ps_stun.Connector.Target.{determine_target_port}
use p2p_ps_stun.Connector.Scan.{
  scan_range, Attempt, Opened, ScanCall, Trial, Split, open_one, open_scan, give_up, swap_in,
  first_ready, take_ready, after_scan, try_scan, try_direct, try_start_ps_connection,
}

-- A request to the host `peer`.
pub record Calls (peer : ℕ) (o : Outgoing) : Type 0 where
  pub kind : o.msg.type ≡ MessageType.client_bind_request
  pub host : o.to.addr ≡ peer

-- An attempt that sends nothing but such requests.
pub record IsAimed (peer : ℕ) (a : Attempt) : Type 0 where
  pub calls : All (Calls peer) a.sent

module _ (d : Double) where
  swap_in-sent :
      (s : UdpSocket) (ss : List UdpSocket) (ports : PortManager) (out : List Outgoing)
      (o : Option Split)
      → (swap_in s ss ports out o).sent ≡ out
  unfolding swap_in
  swap_in-sent s ss ports out none = refl
  swap_in-sent s ss ports out (some (before, u, after)) = refl

  pub after_scan-sent :
      (s : UdpSocket) (t : Trial d) (o : Opened) → (after_scan d s t o).sent ≡ o.sent
  unfolding after_scan give_up take_ready
  after_scan-sent s t o =
      ground (arith, swap_in-sent s o.sockets o.ports o.sent (first_ready t.is_set o.sockets))

module _ (d : Double) (peer : ℕ) where
  open_one-Calls :
      (id base_port : ℕ) (addr : SockaddrIn) (ports : PortManager) (c : ScanCall d)
      → addr.addr ≡ peer
      → All (Calls peer) (open_one d id base_port addr ports c).3
  unfolding open_one try_connect_to_client make_message set_target_address
  open_one-Calls id base_port addr ports c h = ground arith

  open_scan-Calls :
      (id base_port : ℕ) (addr : SockaddrIn) (ports : PortManager) (calls : ℕ → ScanCall d)
      (i n : ℕ)
      → addr.addr ≡ peer
      → All (Calls peer) (open_scan d id base_port addr ports calls i n).sent
  unfolding open_scan
  open_scan-Calls id base_port addr ports calls i zero h = tt
  open_scan-Calls id base_port addr ports calls i (suc n) h =
      let one = open_one d id base_port addr ports (calls i) in
      let first = open_one-Calls id base_port addr ports (calls i) h in
      let rest = open_scan-Calls id base_port addr one.2 calls (i + 1) n h in
      elim (Bool-cases one.1) [
        | inl up ↦ rw up (All-append (Calls peer) one.3 _ first rest)
        | inr down ↦ rw down first
      ]

  try_scan-IsAimed :
      (id base_port : ℕ) (addr : SockaddrIn) (s : UdpSocket) (ports : PortManager) (t : Trial d)
      → addr.addr ≡ peer
      → IsAimed peer (try_scan d id base_port addr s ports t)
  unfolding try_scan
  try_scan-IsAimed id base_port addr s ports t h =
      let o = open_scan d id base_port addr ports t.calls 0 scan_range in
      record {
        calls =
            rw (after_scan-sent d s t o)
              (open_scan-Calls id base_port addr ports t.calls 0 scan_range h);
      }

  try_direct-IsAimed :
      (id : ℕ) (addr : SockaddrIn) (s : UdpSocket) (ports : PortManager) (t : Trial d)
      → addr.addr ≡ peer
      → IsAimed peer (try_direct d id addr s ports t)
  unfolding try_direct try_connect_to_client make_message set_target_address
  try_direct-IsAimed id addr s ports t h = omega (arith, h)

  -- Whatever comes of an attempt, all that it sends are requests to the host that the server named.
  pub attempt-IsAimed :
      (f : Double) (is_sym_nat : Bool) (id base_port : ℕ) (reply : Payload) (s : UdpSocket)
      (ports : PortManager) (t : Trial d)
      → reply.addr_one.addr ≡ peer
      → IsAimed peer (try_start_ps_connection d f is_sym_nat id base_port reply s ports t)
  unfolding try_start_ps_connection
  attempt-IsAimed f is_sym_nat id base_port reply s ports t h =
      let target_port =
        determine_target_port f (ntohs (reply.addr_one.port)) (ntohs (reply.addr_two.port)) reply.t1
          reply.t2 scan_range t.time_now in
      let addr = record (reply.addr_one) { port = htons target_port } in
      let none_sent : Attempt = record {
        success = minus_one;
        socket = s;
        ports = ports;
        sent = [];
        closed = [];
      } in
      if_both (IsAimed peer) (target_port == 0) none_sent _ (record { calls = tt })
        (if_both (IsAimed peer) is_sym_nat (try_scan d id base_port addr s ports t)
          (try_direct d id addr s ports t) (try_scan-IsAimed id base_port addr s ports t h)
          (try_direct-IsAimed id addr s ports t h))
