-- ===== src/Socket.antt =====
-- `udp_socket_t`, P2P_PS/sources/client/src/connection/udp_socket.h. What the system calls return
-- are arguments.
pub mod OwnAddress
use p2p_ps_stun.Prelude.{
  ℕ, ℤ, pos, minus_one, is_minus_one, is_negative, is_positive, Bool, true, false, not, ◌&&◌, ◌||◌,
  List, [], ◌∷◌, ◌==◌, if◌then◌else◌,
}
use p2p_ps_stun.Wire.{SockaddrIn, Message, no_address, af_inet, htons}
use p2p_ps_stun.Double.{Double}
use p2p_ps_stun.Ports.{PortManager, assign_next, assign_next_from_base}

pub record UdpSocket : Type 0 where
  pub initialized : Bool
  pub target_address : SockaddrIn
  pub own_address : SockaddrIn
  pub peer_address : SockaddrIn
  pub socket_handle : ℤ

abbrev pub new_socket : UdpSocket
new_socket = record {
  initialized = false;
  target_address = no_address;
  own_address = no_address;
  peer_address = no_address;
  socket_handle = pos 0;
}

-- The destructor: the handle that it closes.
unfoldable pub closes : UdpSocket → List ℤ
closes s = if s.initialized then s.socket_handle ∷ [] else []

-- `init`, with the result of `socket`.
unfoldable pub init : ℤ → UdpSocket → UdpSocket × Bool
init result s =
    if s.initialized
    then (s, true)
    else if is_minus_one result
    then (record s { socket_handle = result }, false)
    else (record s { socket_handle = result; initialized = true }, true)

-- The system call `bind` is made only for an initialised socket; otherwise `false` is returned.
unfoldable pub bind : ℤ → UdpSocket → ℤ
bind result s = if s.initialized then result else pos 0

-- One call of `bind_by_portman`: the clock, the draw of the generator and the result of `::bind`.
pub record Binding (f : Double) : Type 0 where
  pub now : ℕ
  pub draw : f.Number
  pub result : ℤ

unfoldable pub assign_port : (f : Double) → PortManager → ℕ → Binding f → PortManager × ℕ
assign_port f p base_port b =
    if base_port == 0 then assign_next p b.now else assign_next_from_base f p base_port b.now b.draw

unfoldable pub bind_by_portman :
    (f : Double) → UdpSocket → PortManager → ℕ → Binding f → PortManager × ℕ
unfolding assign_port
bind_by_portman f s p base_port b =
    let (p', port) = assign_port f p base_port b in
    if s.initialized then (p', if is_negative b.result then 0 else port) else (p, 0)

-- `send`, with the result of `sendto`.
unfoldable pub send : ℤ → Bool
send result = if is_minus_one result then false else true

-- One call of `select` and `recvfrom`: their results, the buffer and the sender that are left.
pub record Reception : Type 0 where
  pub select_result : ℤ
  pub result : ℤ
  pub msg : Message
  pub sender : SockaddrIn

-- `receive` has `recvfrom` write the sender over the target.
unfoldable pub receive : UdpSocket → Reception → UdpSocket × ℤ
receive s r = (if is_negative r.result then s else record s { target_address = r.sender }, r.result)

unfoldable pub wait_receive : UdpSocket → Reception → UdpSocket × ℤ
wait_receive s r =
    if is_positive r.select_result
    then (if is_negative r.result then s else record s { peer_address = r.sender }, r.result)
    else (s, r.select_result)

unfoldable pub set_target_address : SockaddrIn → UdpSocket → UdpSocket
set_target_address a s = record s { target_address = a }

-- An entry of the list of `getifaddrs`.
pub record Interface : Type 0 where
  pub has_address : Bool
  pub is_running : Bool
  pub is_loopback : Bool
  pub address : SockaddrIn

unfoldable pub refresh_own_ipv4 : List Interface → SockaddrIn → SockaddrIn
refresh_own_ipv4 [] own = own
refresh_own_ipv4 (i ∷ is) own =
    let rest = refresh_own_ipv4 is own in
    if not i.has_address || not i.is_running || i.is_loopback
    then rest
    else if i.address.family == af_inet
    then i.address
    else rest

unfoldable pub get_own_address : List Interface → UdpSocket → UdpSocket × SockaddrIn
get_own_address is s =
    let own =
      if s.own_address.addr == 0 then refresh_own_ipv4 is s.own_address else s.own_address in
    (record s { own_address = own }, own)
