-- ===== src/Network/Course.antt =====
-- A course of the network in which two clients of p2p_connector.h ask the server of udp_p2p_server.h,
-- are told of each other, and call each other.
use mathlib.Core.List.{append-nil}
use p2p_ps_stun.Prelude.{
  ◌≡◌, ◌∙◌, refl, sym, ap, subst, false, some, List, [], ◌∷◌, ◌++◌, map, find,
}
use p2p_ps_stun.Server.Types.{Server, new_server, socket_0, Datagram}
use p2p_ps_stun.Server.Relay.Pairing.{
  acknowledges, tells, waiting_client, first_waits, second_pairs,
}
use p2p_ps_stun.Server.Loop.{on_message}
use p2p_ps_stun.Socket.{UdpSocket}
use p2p_ps_stun.Connector.Types.{make_message}
use p2p_ps_stun.Connector.Basic.{Loop, is_over, round}
use p2p_ps_stun.Connector.Basic.Outcome.{first_request}
use p2p_ps_stun.Network.{
  World, IsWorld, Packet, packet, answer, Client, greeting, active, Network, posted, Receives,
  begins, acknowledged, hears, first_acts, second_acts, serves, Reach, started, later,
}
use p2p_ps_stun.Network.Serving.{asked}
use p2p_ps_stun.Network.Schedule.{told, heard-Hears, opened, acked, greet-opened, call, reply_round}

abbrev received : Packet → Datagram
received p = record {
  handle = socket_0;
  msg = p.msg;
  peer_addr = p.from;
  check_time = 0;
  stamp_time = 0;
}

received-Receives : (p : Packet) → Receives (received p) p
received-Receives p = record { given = refl; given_by = refl }

module _ (w : World) (v : IsWorld w) (sa sb : UdpSocket) where
  abbrev request_a : Packet
  request_a = packet w.a (first_request w.a_config)

  abbrev request_b : Packet
  request_b = packet w.b (first_request w.b_config)

  abbrev server_1 : Server
  server_1 = (on_message new_server (received request_a)).0

  abbrev server_2 : Server
  server_2 = (on_message server_1 (received request_b)).0

  first_answer :
      (on_message new_server (received request_a)).1 ≡ acknowledges (received request_a) ∷ []
  unfolding make_message find
  first_answer =
      ap (λ r. r.1) (asked new_server (received request_a) refl)
      ∙ (first_waits new_server (received request_a) refl).0

  first_is_kept : waiting_client server_1 ≡ some w.a
  unfolding make_message find
  first_is_kept =
      ap (λ r. waiting_client r.0) (asked new_server (received request_a) refl)
      ∙ (first_waits new_server (received request_a) refl).1

  second_answer :
      (on_message server_1 (received request_b)).1
      ≡ acknowledges (received request_b) ∷ tells w.b w.a ∷ tells w.a w.b ∷ []
  unfolding make_message
  second_answer =
      rw (asked server_1 (received request_b) refl)
        (second_pairs server_1 (received request_b) w.a first_is_kept).0

  abbrev acknowledgement_a : Packet
  acknowledgement_a = answer w.server (acknowledges (received request_a))

  abbrev acknowledgement_b : Packet
  acknowledgement_b = answer w.server (acknowledges (received request_b))

  abbrev reply_a : Packet
  reply_a = answer w.server (tells w.a w.b)

  abbrev reply_b : Packet
  reply_b = answer w.server (tells w.b w.a)

  abbrev network : Server → Client → Client → List Packet → Network
  network s k l ps = record { server = s; first = k; second = l; flight = ps }

  both_asked : Reach w (network new_server (greeting sa) (greeting sb) (request_a ∷ request_b ∷ []))
  both_asked =
      later (later started (first_acts [] [] refl (begins sa)))
        (second_acts (request_a ∷ []) [] refl (begins sb))

  abbrev loop_a : Loop
  loop_a = posted (opened w.a_config sa acknowledgement_a)

  abbrev loop_b : Loop
  loop_b = posted (opened w.b_config sb acknowledgement_b)

  -- The server takes the first request, and its acknowledgement comes.
  first_opened : Reach w (network server_1 (active loop_a) (greeting sb) (request_b ∷ []))
  unfolding make_message
  first_opened =
      let served = later both_asked (
        serves [] (request_b ∷ []) (received request_a) refl v.a_server
          (received-Receives request_a)) in
      let answered : Reach w
          (network server_1 (greeting sa) (greeting sb) (acknowledgement_a ∷ request_b ∷ [])) =
        subst
          (λ out. Reach w (
            network server_1 (greeting sa) (greeting sb)
              (map (answer w.server) out ++ request_b ∷ [])))
          first_answer served in
      later answered (
        first_acts [] (request_b ∷ []) refl (
          acknowledged (acked acknowledgement_a) refl (heard-Hears acknowledgement_a)
            (greet-opened w.a_config sa acknowledgement_a)))

  -- So too for the second, and both replies are under way.
  second_opened :
      Reach w (network server_2 (active loop_a) (active loop_b) (reply_b ∷ reply_a ∷ []))
  unfolding make_message
  second_opened =
      let served =
        later first_opened
          (serves [] [] (received request_b) refl v.b_server (received-Receives request_b)) in
      let answered : Reach w (
          network server_2 (active loop_a) (greeting sb)
            (acknowledgement_b ∷ reply_b ∷ reply_a ∷ [])) =
        subst
          (λ out.
            Reach w
              (network server_2 (active loop_a) (greeting sb) (map (answer w.server) out ++ [])))
          second_answer served in
      later answered (
        second_acts [] (reply_b ∷ reply_a ∷ []) refl (
          acknowledged (acked acknowledgement_b) refl (heard-Hears acknowledgement_b)
            (greet-opened w.b_config sb acknowledgement_b)))

  -- The rounds in which each client hears of the other.
  abbrev pub told_a : Loop
  told_a = round w.a_config (told reply_a) loop_a

  abbrev pub told_b : Loop
  told_b = round w.b_config (told reply_b) loop_b

  abbrev pub call_a : Packet
  call_a = packet w.a (call w.a_config w.b)

  abbrev pub call_b : Packet
  call_b = packet w.b (call w.b_config w.a)

  pub a_calls : (is_over told_a ≡ false) × (told_a.sent ≡ call w.a_config w.b ∷ [])
  unfolding is_over
  a_calls = reply_round w.a_config reply_a loop_a refl refl refl (sym v.a_server)

  pub b_calls : (is_over told_b ≡ false) × (told_b.sent ≡ call w.b_config w.a ∷ [])
  unfolding is_over
  b_calls = reply_round w.b_config reply_b loop_b refl refl refl (sym v.b_server)

  -- Both calls are under way.
  first_told :
      Reach w (network server_2 (active (posted told_a)) (active loop_b) (reply_b ∷ call_a ∷ []))
  unfolding is_over
  first_told =
      subst
        (λ out. Reach w (
          network server_2 (active (posted told_a)) (active loop_b)
            (reply_b ∷ map (packet w.a) out ++ [])))
        a_calls.1
        (later second_opened (
          first_acts (reply_b ∷ []) [] refl (hears (told reply_a) refl (heard-Hears reply_a) refl)))

  both_told :
      Reach w
        (network server_2 (active (posted told_a)) (active (posted told_b)) (call_b ∷ call_a ∷ []))
  unfolding is_over
  both_told =
      subst
        (λ out. Reach w (
          network server_2 (active (posted told_a)) (active (posted told_b))
            (map (packet w.b) out ++ call_a ∷ [])))
        b_calls.1
        (later first_told (
          second_acts [] (call_a ∷ []) refl (hears (told reply_b) refl (heard-Hears reply_b) refl)))

  abbrev pub called_a : Loop
  called_a = round w.a_config (told call_b) (posted told_a)

  abbrev pub called_b : Loop
  called_b = round w.b_config (told call_a) (posted told_b)

  abbrev out_a : List Packet
  out_a = map (packet w.a) called_a.sent

  abbrev out_b : List Packet
  out_b = map (packet w.b) called_b.sent

  first_called :
      Reach w (
        network server_2 (active (posted called_a)) (active (posted told_b)) (out_a ++ call_a ∷ []))
  unfolding is_over
  first_called =
      later both_told
        (first_acts [] (call_a ∷ []) refl (hears (told call_b) refl (heard-Hears call_b) a_calls.0))

  abbrev pub connected : Network
  connected =
      network server_2 (active (posted called_a)) (active (posted called_b)) (out_a ++ out_b ++ [])

  pub both_called : Reach w connected
  unfolding is_over
  both_called = later first_called (
      second_acts out_a [] (sym (append-nil (out_a ++ call_a ∷ [])))
        (hears (told call_a) refl (heard-Hears call_a) b_calls.0))
