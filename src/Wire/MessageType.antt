-- ===== src/Wire/MessageType.antt =====
-- `message_t::type_t` of sources/common/messages.h. The field is a raw `uint8_t` on the wire, so a
-- message may carry a value that is none of these.
use p2p_ps_stun.Prelude.{ℕ}

abbrev pub bind_request : ℕ
bind_request = 0

abbrev pub bind_reply : ℕ
bind_reply = 1

abbrev pub ps_bind_request : ℕ
ps_bind_request = 2

abbrev pub ps_bind_reply : ℕ
ps_bind_reply = 3

abbrev pub client_bind_request : ℕ
client_bind_request = 4

abbrev pub client_bind_response : ℕ
client_bind_response = 5

abbrev pub ack : ℕ
ack = 6

abbrev pub heartbeat : ℕ
heartbeat = 7
