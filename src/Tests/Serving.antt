-- ===== src/Tests/Serving.antt =====
-- Rounds and requests at the server of udp_p2p_server.h.
use p2p_ps_stun.Prelude.{pos, ◌+◌, ◌≤◌, ◌≡◌, refl, false, none, some, List, [], ◌∷◌, find}
use p2p_ps_stun.Wire.{htonl, htons, set_transaction_id}
use p2p_ps_stun.Server.Types.{new_server}
use p2p_ps_stun.Server.Relay.{on_bind_request}
use p2p_ps_stun.Server.Relay.Pairing.{acknowledges, tells, waiting_client, any_two_requests_pair}
use p2p_ps_stun.Server.Loop.{serve, datagram, Round, listening, listen}
use p2p_ps_stun.Server.Loop.Rounds.{listen-serve}
use p2p_ps_stun.Server.History.Turns.{replies, waits, requests_are_answered}
use p2p_ps_stun.Tests.Packets.{alice, bob, a1, a2, b2, basic}

requests_are_answered_example :
    (replies (serve new_server (basic alice 1 10 ∷ a1 ∷ basic bob 2 20 ∷ basic 30 3 30 ∷ [])).1
        + waits (serve new_server (basic alice 1 10 ∷ a1 ∷ basic bob 2 20 ∷ basic 30 3 30 ∷ [])).0
      ≡ 3)
    × (waits (serve new_server (basic alice 1 10 ∷ a1 ∷ basic bob 2 20 ∷ basic 30 3 30 ∷ [])).0 ≤ 1)
unfolding find htons htonl set_transaction_id
requests_are_answered_example =
    requests_are_answered (basic alice 1 10 ∷ a1 ∷ basic bob 2 20 ∷ basic 30 3 30 ∷ [])

any_two_requests_pair_example :
    let s' = (on_bind_request new_server (basic alice 1 10)).0 in
    ((on_bind_request s' (basic bob 2 20)).1
      ≡ acknowledges (basic bob 2 20)
        ∷ tells (basic bob 2 20).peer_addr (basic alice 1 10).peer_addr
        ∷ tells (basic alice 1 10).peer_addr (basic bob 2 20).peer_addr
        ∷ [])
    × (waiting_client (on_bind_request s' (basic bob 2 20)).0 ≡ none)
unfolding find
any_two_requests_pair_example =
    any_two_requests_pair new_server (basic alice 1 10) (basic bob 2 20) refl

abbrev rounds : List Round
rounds =
    record {
      sig_close = false;
      status = pos 2;
      first = some (datagram a1);
      second = some (datagram a2);
    }
    ∷ record { sig_close = false; status = pos 0; first = none; second = none }
    ∷ record { sig_close = false; status = pos 1; first = none; second = some (datagram b2) }
    ∷ []

listen-serve_example :
    listen (listening new_server []) rounds
    ≡ listening (serve new_server (a1 ∷ a2 ∷ b2 ∷ [])).0 (serve new_server (a1 ∷ a2 ∷ b2 ∷ [])).1
listen-serve_example = listen-serve new_server [] rounds (
  record { goes_on = refl; selected = refl; first_arrives = tt; second_arrives = tt },
  (
    record { goes_on = refl; selected = refl; first_arrives = tt; second_arrives = tt },
    (record { goes_on = refl; selected = refl; first_arrives = tt; second_arrives = tt }, tt),
  ),
)
