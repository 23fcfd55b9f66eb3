-- ===== src/Server/Relay/Pairing.antt =====
-- How bind_request pairs its senders (udp_p2p_server.h): by the order of their requests alone.
use p2p_ps_stun.Prelude.{◌≡◌, refl, Option, none, some, [], ◌∷◌, find, find-insert, find-erase}
use p2p_ps_stun.Wire.{SockaddrIn}
use p2p_ps_stun.Server.Types.{Server, socket_0, Sent, Datagram}
use p2p_ps_stun.Server.Relay.{
  ack_message, bind_reply_message, bind_request_id, relay, on_bind_request,
}

abbrev pub acknowledges : Datagram → Sent
acknowledges d = record { via = socket_0; msg = ack_message; to = d.peer_addr }

abbrev pub tells : SockaddrIn → SockaddrIn → Sent
tells a b = record { via = socket_0; msg = bind_reply_message b; to = a }

-- The client that waits for a partner.
abbrev pub waiting_client : Server → Option SockaddrIn
waiting_client s = find 0 s.transaction_client_map

-- Any bind_request of a client when none waits only gets an acknowledgement, and the client waits.
pub first_waits :
    (s : Server) (d : Datagram)
    → waiting_client s ≡ none
    → ((on_bind_request s d).1 ≡ acknowledges d ∷ [])
      × (waiting_client (on_bind_request s d).0 ≡ some d.peer_addr)
unfolding on_bind_request bind_request_id
first_waits s d e = rw (e, relay) (refl, find-insert 0 0 d.peer_addr _ e)

pub second_pairs :
    (s : Server) (d : Datagram) (a : SockaddrIn)
    → waiting_client s ≡ some a
    → ((on_bind_request s d).1 ≡ acknowledges d ∷ tells d.peer_addr a ∷ tells a d.peer_addr ∷ [])
      × (waiting_client (on_bind_request s d).0 ≡ none)
unfolding on_bind_request bind_request_id
second_pairs s d a e = rw (e, relay) (refl, find-erase 0 0 s.transaction_client_map)

-- When no client waits, the next two bind_requests are paired, whatever the two messages hold, their
-- transaction ids included: each sender is told the other's address, and no client waits then.
pub any_two_requests_pair :
    (s : Server) (d e : Datagram)
    → waiting_client s ≡ none
    → let s' = (on_bind_request s d).0 in
      ((on_bind_request s' e).1
        ≡ acknowledges e ∷ tells e.peer_addr d.peer_addr ∷ tells d.peer_addr e.peer_addr ∷ [])
      × (waiting_client (on_bind_request s' e).0 ≡ none)
any_two_requests_pair s d e h =
    second_pairs (on_bind_request s d).0 e d.peer_addr (first_waits s d h).1
