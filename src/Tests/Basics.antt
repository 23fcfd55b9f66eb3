-- ===== src/Tests/Basics.antt =====
-- Runs of `connect` in p2p_connector.h: a peer's request, a response, silence.
use p2p_ps_stun.Prelude.{pos, ◌≡◌, refl, true, false, List, [], ◌∷◌, replicate, arith}
use p2p_ps_stun.Wire.{
  SockaddrIn, Message, htonl, htons, zero_message, zero_payload, set_transaction_id, transaction_id,
  set_bind_reply, stun_server_addr,
}
use p2p_ps_stun.Wire.MessageType
use p2p_ps_stun.Socket.{UdpSocket, new_socket, Reception, send, wait_receive, set_target_address}
use p2p_ps_stun.Connector.Types.{
  Outgoing, Event, waiting_for_stun_reply, make_message, try_connect_to_client,
}
use p2p_ps_stun.Connector.Basic.{
  Config, Loop, Greeting, Connecting, looping, returned, greet, round, connect, proceed, run,
  is_over, finish, on_timeout, on_message, on_bind_reply,
}
use p2p_ps_stun.Connector.Basic.Success.{WasAccepted, connect_success}
use p2p_ps_stun.Connector.Basic.Outcome.{
  first_request, no_match_contacts_nobody, Returns, connect_returns,
}
use p2p_ps_stun.Tests.Packets.{address, alice, bob, request}

abbrev config : Config
config = record { stun_server_address = record { ip = 1; port = 3000 }; transaction_id = 7 }

abbrev server : SockaddrIn
server = record { family = 2; port = htons 3000; addr = htonl 1; pad = 0 }

abbrev socket : UdpSocket
socket = record new_socket { initialized = true; socket_handle = pos 5 }

abbrev hears : Message → SockaddrIn → Reception
hears m a = record { select_result = pos 1; result = pos 60; msg = m; sender = a }

abbrev silence : Reception
silence = record { select_result = pos 0; result = pos 0; msg = zero_message; sender = server }

abbrev event : Reception → Event
event r = record { reception = r; sendto_result = pos 60; stack = zero_message }

abbrev greeting : Greeting
greeting = record { sendto_result = pos 60; reception = hears (request MessageType.ack 7) server }

-- The server's reply, with bob's address.
abbrev reply : Event
reply = event (
    hears
      (record {
        type = MessageType.bind_reply;
        message = set_bind_reply (address bob 5000) zero_payload;
      })
      server)

abbrev response : Event
response = event (hears (request MessageType.client_bind_response 7) (address bob 5000))

-- A message of a type that the loop does not know: it uses an attempt.
abbrev noise : Event
noise = event (hears (request 99 7) (address alice 4000))

abbrev conversation : List Event
conversation = event silence ∷ reply ∷ noise ∷ response ∷ []

abbrev start_loop : Loop
start_loop = record {
  socket = record socket { target_address = server; peer_address = server };
  state = waiting_for_stun_reply;
  connection_established = false;
  attempts_left = 10;
  sent = first_request config ∷ [];
}

connect_success_example :
    (l : Loop) × (greet config socket greeting ≡ looping l) × WasAccepted config l conversation
unfolding connect greet proceed run is_over round finish wait_receive send try_connect_to_client
    make_message set_target_address on_timeout on_message on_bind_reply stun_server_addr htons htonl
    transaction_id set_transaction_id
connect_success_example = connect_success config socket greeting conversation _ refl

abbrev quiet : List Event
quiet = replicate 10 (event silence)

connect_returns_example : Returns (connect config socket greeting (reply ∷ noise ∷ quiet))
connect_returns_example =
    connect_returns config socket greeting (reply ∷ noise ∷ []) quiet (ground arith) (omega arith)

abbrev outgoing : Connecting → List Outgoing
outgoing (returned r out) = out
outgoing (looping l) = l.sent

no_match_contacts_nobody_example :
    outgoing (connect config socket greeting quiet) ≡ first_request config ∷ []
unfolding connect greet proceed run is_over round finish wait_receive send on_timeout
    stun_server_addr htons htonl transaction_id set_transaction_id
no_match_contacts_nobody_example =
    no_match_contacts_nobody config socket greeting quiet
      (outgoing (connect config socket greeting quiet)) refl
