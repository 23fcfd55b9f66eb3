-- ===== src/Tests/Chatting.antt =====
-- A session of a normal runner, and events.
use p2p_ps_stun.Prelude.{pos, ◌+◌, ◌≡◌, List, [], ◌∷◌}
use p2p_ps_stun.Wire.{zero_message}
use p2p_ps_stun.Socket.{new_socket}
use p2p_ps_stun.Connection.{UdpConnection}
use p2p_ps_stun.NormalRunner.{Turn, receives, beats, session, turn}
use p2p_ps_stun.NormalRunner.Heartbeats.{heartbeats_follow_last_sender}
use p2p_ps_stun.Event.{signals, resets, calls, new_event}
use p2p_ps_stun.Event.Counting.{first_signals, signals_are_taken_once}
use p2p_ps_stun.Tests.Packets.{address, alice, bob}

-- Connected with bob.
abbrev connection : UdpConnection
connection = record { socket = record new_socket { target_address = address bob 5000 } }

-- A stranger's datagram between two heartbeats.
abbrev turns : List Turn
turns =
    beats (pos 20)
    ∷ receives (record {
      select_result = pos 1;
      result = pos 20;
      msg = zero_message;
      sender = address alice 4000;
    })
    ∷ []

heartbeats_follow_last_sender_example :
    (session
      (beats (pos 20)
        ∷ receives (record {
          select_result = pos 1;
          result = pos 20;
          msg = zero_message;
          sender = address alice 4000;
        })
        ∷ beats (pos 20)
        ∷ [])
      connection).1
    ≡ address bob 5000 ∷ address alice 4000 ∷ []
unfolding session turn
heartbeats_follow_last_sender_example = heartbeats_follow_last_sender turns connection (pos 20)

signals_are_taken_once_example :
    first_signals (calls (signals ∷ resets ∷ signals ∷ signals ∷ []) new_event).1 + 0 ≡ 1 + 1
unfolding calls
signals_are_taken_once_example =
    signals_are_taken_once (signals ∷ resets ∷ signals ∷ signals ∷ []) new_event
