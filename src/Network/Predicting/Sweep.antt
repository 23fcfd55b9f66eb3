-- ===== src/Network/Predicting/Sweep.antt =====
-- A client of p2p_ps_connector.h behind a symmetric NAT: its greeting with the helper socket, the scan
-- when it is told of its peer, and the peer's answer to one of the scan's sockets.
use mathlib.Core.List.{Memᴰ}
use p2p_ps_stun.Prelude.{
  ℕ, zero, suc, ℤ, pos, negsuc, ◌+◌, ◌≤◌, ◌<◌, ◌≡◌, sym, ap, inl, inr, refl, Bool, true, false,
  Bool-cases, some, List, [], ◌∷◌, ◌++◌, ◌==◌, ==_iff, arith,
}
use p2p_ps_stun.Wire.{SockaddrIn, stun_server_addr}
use p2p_ps_stun.Double.{Double}
use p2p_ps_stun.Ports.{PortManager}
use p2p_ps_stun.Socket.{
  UdpSocket, new_socket, init, bind_by_portman, wait_receive, send, set_target_address,
}
use p2p_ps_stun.Connector.Types.{Outgoing, waiting_for_stun_reply, try_connect_to_client}
use p2p_ps_stun.Connector.Scan.{Trial, Opened, first_ready, behind, open_one, open_scan}
use p2p_ps_stun.Connector.Predicting.{
  Config, Loop, looping, exchange, request, greet_second, attempts,
}
use p2p_ps_stun.Network.{Packet, packet}
use p2p_ps_stun.Network.Predicting.{Host, Sends}
use p2p_ps_stun.Network.Predicting.Schedule.{binding, acks, asked, trial}
use p2p_ps_stun.Network.Predicting.Replies.{call}

-- The helper socket is opened.
abbrev helper : UdpSocket
helper = record new_socket { socket_handle = pos 4; initialized = true }

-- The loop after the second acknowledgement, which the helper socket heard.
abbrev pub opened_by_helper :
    (d : Double) → Config → UdpSocket → PortManager → Packet → Packet → Loop
opened_by_helper d c s ports p q =
    let l = asked d c s ports p in
    record l {
      socket2 = record helper {
        target_address = stun_server_addr c.stun_server_address2;
        peer_address = q.from;
      };
      ports = (bind_by_portman d helper l.ports l.base_port (binding d)).0;
      state = waiting_for_stun_reply;
      attempts_left = attempts;
      sent = l.sent ++ request c c.stun_server_address2 p.msg ∷ [];
    }

pub greet_second-helper :
    (d : Double) (c : Config) (s : UdpSocket) (ports : PortManager) (p q : Packet)
    → c.is_sym_nat ≡ true
    → greet_second d c (acks d p q) (asked d c s ports p)
      ≡ looping (opened_by_helper d c s ports p q)
unfolding greet_second exchange wait_receive send set_target_address init
greet_second-helper d c s ports p q symmetric = rw symmetric refl

abbrev pub is_handle : ℕ → ℤ → Bool
is_handle j h = elim h [ pos n ↦ n == j | negsuc n ↦ false ]

-- A scan in which every socket opens and that with the handle `j` hears the peer.
abbrev pub sweep : (d : Double) → ℕ → Packet → Trial d
sweep d j p = record (trial d 0 p) { is_set = is_handle j }

-- The packets of messages that leave one after another, the NAT showing each at an address of its own.
unfoldable pub spread : (ℕ → SockaddrIn) → ℕ → List Outgoing → List Packet
spread xs i [] = []
spread xs i (o ∷ os) = packet (xs i) o ∷ spread xs (i + 1) os

pub spread-Sends :
    (h : Host) (xs : ℕ → SockaddrIn)
    → ((i : ℕ) → h.Shows (xs i))
    → (i : ℕ) (os : List Outgoing) → Sends h os (spread xs i os)
unfolding spread
spread-Sends h xs shown i [] = Sends.nothing
spread-Sends h xs shown i (o ∷ os) =
    Sends.one_more (shown i) refl refl (spread-Sends h xs shown (i + 1) os)

-- The first ready socket of a scan sends to `y`.
pub record IsHit (y : SockaddrIn) (j : ℕ) (sockets : List UdpSocket) : Type 0 where
  pub before : List UdpSocket
  pub ready : UdpSocket
  pub after : List UdpSocket
  pub first : first_ready (is_handle j) sockets ≡ some (before, ready, after)
  pub target : ready.target_address ≡ y

module _ (y : SockaddrIn) (j : ℕ) (s : UdpSocket) (ss : List UdpSocket) where
  now-IsHit : is_handle j s.socket_handle ≡ true → s.target_address ≡ y → IsHit y j (s ∷ ss)
  unfolding first_ready behind
  now-IsHit e target = record {
    before = [];
    ready = s;
    after = ss;
    first = rw e refl;
    target = target;
  }

  later-IsHit : is_handle j s.socket_handle ≡ false → IsHit y j ss → IsHit y j (s ∷ ss)
  unfolding first_ready behind
  later-IsHit e h = record {
    before = s ∷ h.before;
    ready = h.ready;
    after = h.after;
    first = rw (e, h.first) refl;
    target = h.target;
  }

module _ (d : Double) (c : Config) (base_port : ℕ) (y : SockaddrIn) (p : Packet) (j : ℕ) where
  abbrev pub swept : PortManager → ℕ → ℕ → Opened
  swept ports i n = open_scan d c.transaction_id base_port y ports (sweep d j p).calls i n

  abbrev opened_at : ℕ → UdpSocket
  opened_at i = record new_socket { socket_handle = pos i; initialized = true; target_address = y }

  abbrev ports_after : PortManager → ℕ → PortManager
  ports_after ports i =
      (bind_by_portman d (record new_socket { socket_handle = pos i; initialized = true }) ports
        base_port (binding d)).0

  one_swept :
      (ports : PortManager) (i n : ℕ)
      → swept ports i (suc n) ≡ (
          let rest = swept (ports_after ports i) (i + 1) n in
          record rest { sockets = opened_at i ∷ rest.sockets; sent = call c y ∷ rest.sent })
  unfolding open_scan open_one init set_target_address try_connect_to_client
  one_swept ports i n = refl

  pub all_open : (ports : PortManager) (i n : ℕ) → (swept ports i n).failed ≡ false
  unfolding open_scan
  all_open ports i zero = refl
  all_open ports i (suc n) = rw (one_swept ports i n) (all_open (ports_after ports i) (i + 1) n)

  -- The socket with the handle `j` is among those of the scan.
  pub swept-IsHit :
      (ports : PortManager) (i n : ℕ) → i ≤ j → j < i + n → IsHit y j (swept ports i n).sockets
  swept-IsHit ports i zero h k = absurd (omega (arith, h, k))
  swept-IsHit ports i (suc n) h k =
      let rest = swept (ports_after ports i) (i + 1) n in
      elim (Bool-cases (i == j)) [
        | inl e ↦ rw (one_swept ports i n) (now-IsHit y j (opened_at i) rest.sockets e refl)
        | inr e ↦ rw (one_swept ports i n) (
            later-IsHit y j (opened_at i) rest.sockets e
              (swept-IsHit (ports_after ports i) (i + 1) n (ground arith) (ground arith)))
      ]

  -- So its request is sent.
  pub carries :
      (xs : ℕ → SockaddrIn) (ports : PortManager) (i n : ℕ)
      → i ≤ j
      → j < i + n
      → Memᴰ (packet (xs j) (call c y)) (spread xs i (swept ports i n).sent)
  unfolding spread
  carries xs ports i zero h k = absurd (omega (arith, h, k))
  carries xs ports i (suc n) h k = elim (Bool-cases (i == j)) [
    | inl e ↦
        rw (one_swept ports i n)
          (Memᴰ.head (ap (λ m. packet (xs m) (call c y)) (sym ((==_iff i j).0 e))))
    | inr e ↦
        rw (one_swept ports i n)
          (Memᴰ.tail (carries xs (ports_after ports i) (i + 1) n (ground arith) (ground arith)))
  ]
