-- ===== src/Wire.antt =====
-- The datagrams and addresses: P2P_PS/sources/common/messages.h and connection_types.h, with the
-- parts of <netinet/in.h> that they use, on a little-endian host.
pub mod MessageType
pub mod Addressing
use p2p_ps_stun.Prelude.{ℕ, ◌+◌, ◌*◌, ◌/◌, ◌%◌, ◌^◌, ◌<◌, ◌≡◌, List, Option, none, some, arith}

-- A little-endian host swaps the bytes of a network-order number.
unfoldable pub htons : ℕ → ℕ
htons x = x % 256 * 256 + x / 256 % 256

abbrev pub ntohs : ℕ → ℕ
ntohs x = htons x

unfoldable pub htonl : ℕ → ℕ
htonl x = x % 256 * 2 ^ 24 + x / 256 % 256 * 2 ^ 16 + x / 2 ^ 16 % 256 * 256 + x / 2 ^ 24 % 256

abbrev pub ntohl : ℕ → ℕ
ntohl x = htonl x

-- `sockaddr_in`, with `port` and `addr` (`sin_addr.s_addr`) in network order. `pad` is `sin_zero`.
pub record SockaddrIn : Type 0 where
  pub family : ℕ
  pub port : ℕ
  pub addr : ℕ
  pub pad : ℕ

abbrev pub af_inet : ℕ
af_inet = 2

abbrev pub no_address : SockaddrIn
no_address = record { family = 0; port = 0; addr = 0; pad = 0 }

-- The union `message`, laid out as its largest member `ps_bind_reply_t`. The other members are
-- views of its first bytes.
pub record Payload : Type 0 where
  pub addr_one : SockaddrIn
  pub addr_two : SockaddrIn
  pub t1 : ℕ
  pub t2 : ℕ

abbrev pub zero_payload : Payload
zero_payload = record { addr_one = no_address; addr_two = no_address; t1 = 0; t2 = 0 }

pub record Message : Type 0 where
  pub type : ℕ
  pub message : Payload

-- `memset(&msg, 0, sizeof(msg))`
abbrev pub zero_message : Message
zero_message = record { type = 0; message = zero_payload }

-- `bind_reply_t` is the `sockaddr_in` in the first 16 bytes.
abbrev pub bind_reply : Payload → SockaddrIn
bind_reply u = u.addr_one

abbrev pub set_bind_reply : SockaddrIn → Payload → Payload
set_bind_reply a u = record u { addr_one = a }

-- `transaction_id` of each request and response is the 32-bit word in the first 4 bytes, where
-- `sockaddr_in` has `sin_family` and `sin_port`.
unfoldable pub transaction_id : Payload → ℕ
transaction_id u = u.addr_one.family + u.addr_one.port * 2 ^ 16

unfoldable pub set_transaction_id : ℕ → Payload → Payload
set_transaction_id id u = record u {
  addr_one = record (u.addr_one) { family = id % 2 ^ 16; port = id / 2 ^ 16 };
}

-- `address_t`, its numbers in host order.
pub record Address : Type 0 where
  pub ip : ℕ
  pub port : ℕ

-- `address_t::parse_ip`: 0 for a text that `inet_aton` refuses.
unfoldable pub parse_ip : (List ℕ → Option ℕ) → List ℕ → ℕ
parse_ip inet_aton ip_addr = elim (inet_aton ip_addr) [ none ↦ 0 | some s_addr ↦ ntohl s_addr ]

-- The address of a stun server, as each connector fills it in.
unfoldable pub stun_server_addr : Address → SockaddrIn
stun_server_addr a = record { family = af_inet; port = htons a.port; addr = htonl a.ip; pad = 0 }
