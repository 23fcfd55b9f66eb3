-- ===== src/Tests/Meetings.antt =====
-- Histories of ps_bind_request at the server of udp_p2p_server.h.
use p2p_ps_stun.Prelude.{◌≡◌, ◌⊎◌, inl, refl, none, some, [], ◌∷◌, find, All, arith}
use p2p_ps_stun.Wire.{htonl, htons, transaction_id, set_transaction_id}
use p2p_ps_stun.Server.Types.{PsTransaction, Server, new_server, new_transaction}
use p2p_ps_stun.Server.Prediction.{ps_request_id, ps_replies, update, on_ps_bind_request}
use p2p_ps_stun.Server.Prediction.Invariant.{IsWellFormed, IsMatched}
use p2p_ps_stun.Server.Prediction.Phases.{update_refines, view, advance, classify, phase}
use p2p_ps_stun.Server.Prediction.Machine.{lookup}
use p2p_ps_stun.Server.Loop.{serve, on_message}
use p2p_ps_stun.Server.History.Isolation.{ack_to, track, lookup-serve}
use p2p_ps_stun.Server.History.Matching.{
  Meeting, meeting, introduces, pair_is_introduced, first_client_last_stalls,
}
use p2p_ps_stun.Server.History.Soundness.{IsSound, serve-IsSound, ps_request_answers}
use p2p_ps_stun.Server.History.Times.{HasOrderedTimes, replies_have_ordered_times}
use p2p_ps_stun.Server.History.SameHost.{same_host_unanswered}
use p2p_ps_stun.Tests.Packets.{alice, a1, a2, b1, b2, other}

lookup-serve_example :
    lookup 7 (serve new_server (a1 ∷ other ∷ a2 ∷ [])).0 ≡ track none (a1 ∷ a2 ∷ [])
unfolding ps_request_id transaction_id set_transaction_id htonl htons find
lookup-serve_example = lookup-serve 7 new_server (a1 ∷ other ∷ a2 ∷ [])

introduced : Meeting a1 a2 b1 b2
unfolding htons htonl set_transaction_id
introduced = omega arith

pair_is_introduced_example :
    ((on_message (serve new_server (a1 ∷ b1 ∷ other ∷ a2 ∷ [])).0 b2).1
      ≡ ack_to b2
        ∷ introduces a1.peer_addr b1 b2 3000 4001
        ∷ introduces b1.peer_addr a1 a2 1000 2000
        ∷ [])
    × (lookup 7 (on_message (serve new_server (a1 ∷ b1 ∷ other ∷ a2 ∷ [])).0 b2).0 ≡ none)
unfolding ps_request_id transaction_id set_transaction_id htonl htons find
pair_is_introduced_example =
    pair_is_introduced 7 new_server (a1 ∷ b1 ∷ other ∷ a2 ∷ []) a1 a2 b1 b2 introduced refl
      (inl refl) refl

first_client_last_stalls_example :
    ((on_message (serve new_server (a1 ∷ b1 ∷ b2 ∷ [])).0 a2).1 ≡ ack_to a2 ∷ [])
    × (lookup 7 (on_message (serve new_server (a1 ∷ b1 ∷ b2 ∷ [])).0 a2).0
        ≡ some (meeting a1 a2 b1 b2))
unfolding ps_request_id transaction_id set_transaction_id htonl htons find
first_client_last_stalls_example =
    first_client_last_stalls 7 new_server (a1 ∷ b1 ∷ b2 ∷ []) a1 a2 b1 b2 introduced refl refl refl

serve-IsSound_example : IsSound (serve new_server (a1 ∷ b1 ∷ other ∷ a2 ∷ [])).0
unfolding find htons htonl set_transaction_id
serve-IsSound_example = serve-IsSound new_server (a1 ∷ b1 ∷ other ∷ a2 ∷ []) (omega arith) (λ _. tt)

abbrev almost : Server
almost = (serve new_server (a1 ∷ b1 ∷ other ∷ a2 ∷ [])).0

ps_request_answers_example :
    ((on_ps_bind_request almost b2).1 ≡ ack_to b2 ∷ [])
    ⊎ ((tr : PsTransaction) × IsMatched tr
        × ((on_ps_bind_request almost b2).1 ≡ ack_to b2 ∷ ps_replies tr)
        × (lookup (ps_request_id b2.msg) (on_ps_bind_request almost b2).0 ≡ none))
unfolding htons htonl set_transaction_id
ps_request_answers_example = ps_request_answers almost b2 (omega arith) serve-IsSound_example

abbrev half_way : PsTransaction
half_way = record (new_transaction a1.peer_addr 1000) {
  cl1_sk2 = a2.peer_addr;
  cl1_ts2 = 2000;
  cl2_sk1 = b1.peer_addr;
  cl2_ts1 = 3000;
}

half_way-IsWellFormed : IsWellFormed half_way
unfolding new_transaction htons
half_way-IsWellFormed = ground arith

update_refines_example :
    view (update half_way b2.peer_addr 4000 4001)
    ≡ advance (classify half_way b2.peer_addr 4000) (phase half_way)
unfolding htons
update_refines_example =
    update_refines half_way b2.peer_addr 4000 4001 (omega arith) half_way-IsWellFormed

replies_have_ordered_times_example :
    All HasOrderedTimes (serve new_server (a1 ∷ a2 ∷ b1 ∷ b2 ∷ [])).1
unfolding htons htonl set_transaction_id
replies_have_ordered_times_example =
    replies_have_ordered_times 0 (a1 ∷ a2 ∷ b1 ∷ b2 ∷ []) (omega arith) (omega arith)

same_host_unanswered_example :
    (on_message (serve new_server (a1 ∷ other ∷ a2 ∷ a1 ∷ [])).0 a2).1 ≡ ack_to a2 ∷ []
unfolding ps_request_id transaction_id set_transaction_id htonl htons find
same_host_unanswered_example =
    same_host_unanswered alice 7 new_server (a1 ∷ other ∷ a2 ∷ a1 ∷ []) a2 refl (omega arith) refl
      refl
