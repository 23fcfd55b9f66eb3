-- ===== src/Connector/Scan.antt =====
-- `try_start_ps_connection` of p2p_ps_connector.h: one socket, or the scan with `scan_range` sockets
-- of which the first that hears the peer replaces the caller's.
pub mod Handles
pub mod Requests
pub mod Sent
use p2p_ps_stun.Prelude.{
  ℕ, zero, suc, ℤ, pos, minus_one, is_minus_one, is_zero, Bool, true, false, not, Option, none,
  some, List, [], ◌∷◌, ◌++◌, ◌+◌, ◌==◌, if◌then◌else◌,
}
use p2p_ps_stun.Wire.{SockaddrIn, Message, Payload, htons, ntohs}
use p2p_ps_stun.Double.{Double}
use p2p_ps_stun.Ports.{PortManager}
use p2p_ps_stun.Socket.{
  UdpSocket, new_socket, closes, init, Binding, bind_by_portman, set_target_address,
}
use p2p_ps_stun.Connector.Types.{Outgoing, Event, try_connect_to_client}
use p2p_ps_stun.Connector.Target.{determine_target_port}

abbrev pub scan_range : ℕ
scan_range = 50

module _ (d : Double) where
  -- What one round of the scan gets from outside.
  pub record ScanCall : Type 0 where
    pub socket_result : ℤ
    pub binding : Binding d
    pub event : Event

-- The sockets of a scan, opened up to a failure of `init` or to the end.
pub record Opened : Type 0 where
  pub failed : Bool
  pub sockets : List UdpSocket
  pub ports : PortManager
  pub sent : List Outgoing

-- The handles that the destructors of the sockets in a vector close.
unfoldable pub closes_all : List UdpSocket → List ℤ
closes_all [] = []
closes_all (s ∷ ss) = closes s ++ closes_all ss

-- A vector of sockets around one of them.
abbrev pub Split : Type 0
Split = List UdpSocket × UdpSocket × List UdpSocket

unfoldable pub behind : UdpSocket → Option Split → Option Split
behind s none = none
behind s (some (before, t, after)) = some (s ∷ before, t, after)

-- The first socket that `select` left in the set, between those before it and those after it.
unfoldable pub first_ready : (ℤ → Bool) → List UdpSocket → Option Split
first_ready is_set [] = none
first_ready is_set (s ∷ ss) =
    let rest = behind s (first_ready is_set ss) in
    if is_set s.socket_handle then some ([], s, ss) else rest

-- The result, the caller's socket, the ports, what was sent and which handles were closed.
pub record Attempt : Type 0 where
  pub success : ℤ
  pub socket : UdpSocket
  pub ports : PortManager
  pub sent : List Outgoing
  pub closed : List ℤ

-- A scan that ends without a peer.
unfoldable pub give_up : ℤ → UdpSocket → Opened → Attempt
give_up r in_socket o = record {
  success = r;
  socket = in_socket;
  ports = o.ports;
  sent = o.sent;
  closed = closes_all o.sockets;
}

-- `std::swap` copies the caller's socket, and the destructor of the copy closes its handle; the
-- vector then closes what it holds, the caller's old handle among it.
unfoldable pub swap_in :
    UdpSocket → List UdpSocket → PortManager → List Outgoing → Option Split → Attempt
swap_in in_socket sockets ports sent none = record {
  success = pos 0;
  socket = in_socket;
  ports = ports;
  sent = sent;
  closed = closes_all sockets;
}
swap_in in_socket sockets ports sent (some (before, s, after)) = record {
  success = pos 1;
  socket = s;
  ports = ports;
  sent = sent;
  closed = closes in_socket ++ closes_all (before ++ in_socket ∷ after);
}

-- The `for` over the sockets after `select`.
unfoldable pub take_ready :
    (ℤ → Bool) → UdpSocket → List UdpSocket → PortManager → List Outgoing → Attempt
take_ready is_set in_socket sockets ports sent =
    swap_in in_socket sockets ports sent (first_ready is_set sockets)

module _ (d : Double) where
  -- One round: a socket is opened, bound next to the base port, and sends a request to the target.
  unfoldable pub open_one :
      ℕ → ℕ → SockaddrIn → PortManager → ScanCall d → UdpSocket × Bool × PortManager × List Outgoing
  open_one id base_port addr ports c =
      let (s, up) = init c.socket_result new_socket in
      let (ports', port) = bind_by_portman d s ports base_port c.binding in
      let s' = set_target_address addr s in
      if up
      then (s', true, ports', (try_connect_to_client id s' c.event).1)
      else (s, false, ports, [])

  -- The `for` over the sockets from `i` on, `n` of them left.
  unfoldable pub open_scan : ℕ → ℕ → SockaddrIn → PortManager → (ℕ → ScanCall d) → ℕ → ℕ → Opened
  open_scan id base_port addr ports calls i zero = record {
    failed = false;
    sockets = [];
    ports = ports;
    sent = [];
  }
  open_scan id base_port addr ports calls i (suc n) =
      let (s, up, ports', out) = open_one id base_port addr ports (calls i) in
      let rest = open_scan id base_port addr ports' calls (i + 1) n in
      if up
      then record rest { sockets = s ∷ rest.sockets; sent = out ++ rest.sent }
      else record { failed = true; sockets = s ∷ []; ports = ports'; sent = out }

  -- What `try_start_ps_connection` gets from outside.
  pub record Trial : Type 0 where
    pub time_now : ℕ
    pub calls : ℕ → ScanCall d
    pub event : Event
    pub select_result : ℤ
    pub is_set : ℤ → Bool

  -- What follows the `for` that opens the sockets.
  unfoldable pub after_scan : UdpSocket → Trial → Opened → Attempt
  after_scan in_socket t o =
      if o.failed
      then give_up minus_one in_socket o
      else if is_zero t.select_result
      then give_up (pos 0) in_socket o
      else if is_minus_one t.select_result
      then give_up (pos 0) in_socket o
      else take_ready t.is_set in_socket o.sockets o.ports o.sent

  -- Behind a symmetric NAT.
  unfoldable pub try_scan : ℕ → ℕ → SockaddrIn → UdpSocket → PortManager → Trial → Attempt
  try_scan id base_port addr in_socket ports t =
      after_scan in_socket t (open_scan id base_port addr ports t.calls 0 scan_range)

  -- Behind any other NAT, with the caller's socket.
  unfoldable pub try_direct : ℕ → SockaddrIn → UdpSocket → PortManager → Trial → Attempt
  try_direct id addr in_socket ports t =
      let s = set_target_address addr in_socket in
      record {
        success =
            if is_zero t.select_result
            then pos 0
            else if is_minus_one t.select_result
            then pos 0
            else pos 1;
        socket = s;
        ports = ports;
        sent = (try_connect_to_client id s t.event).1;
        closed = [];
      }

  unfoldable pub try_start_ps_connection :
      Double → Bool → ℕ → ℕ → Payload → UdpSocket → PortManager → Trial → Attempt
  try_start_ps_connection f is_sym_nat id base_port bind_reply in_socket ports t =
      let p1 = ntohs (bind_reply.addr_one.port) in
      let p2 = ntohs (bind_reply.addr_two.port) in
      let target_port =
        determine_target_port f p1 p2 bind_reply.t1 bind_reply.t2 scan_range t.time_now in
      let addr = record (bind_reply.addr_one) { port = htons target_port } in
      if target_port == 0
      then record { success = minus_one; socket = in_socket; ports = ports; sent = []; closed = [] }
      else if is_sym_nat
      then try_scan id base_port addr in_socket ports t
      else try_direct id addr in_socket ports t
