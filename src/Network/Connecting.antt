-- ===== src/Network/Connecting.antt =====
-- Two clients of p2p_connector.h can always connect through the server of udp_p2p_server.h.
use p2p_ps_stun.Prelude.{◌^◌, ◌<◌, ◌≡◌, ◌∙◌, refl, sym, subst, true}
use p2p_ps_stun.Wire.{SockaddrIn}
use p2p_ps_stun.Socket.{UdpSocket}
use p2p_ps_stun.Connector.Types.{make_message}
use p2p_ps_stun.Connector.Basic.{Loop, is_over}
use p2p_ps_stun.Network.{World, IsWorld, active, Network, posted, Reach}
use p2p_ps_stun.Network.Safety.{first_side, second_side, success_means_peer}
use p2p_ps_stun.Network.Schedule.{call_round, call-id}
use p2p_ps_stun.Network.Course.{
  told_a, told_b, call_a, call_b, called_a, called_b, connected, a_calls, b_calls, both_called,
}

-- The loop of a connected client that sends to `peer`.
pub record IsConnected (peer : SockaddrIn) (l : Loop) : Type 0 where
  pub up : l.connection_established ≡ true
  pub target : l.socket.target_address ≡ peer

-- The end that the server and two clients can reach: each client is connected with the other.
pub record Connects (w : World) : Type 0 where
  pub end : Network
  pub reached : Reach w end
  pub loop_a : Loop
  pub loop_b : Loop
  pub is_a : end.first ≡ active loop_a
  pub is_b : end.second ≡ active loop_b
  pub a_up : IsConnected w.b loop_a
  pub b_up : IsConnected w.a loop_b

-- From a start in which nothing has been sent, for any two clients that use the same transaction id
-- of 32 bits and any three different endpoints, some order of the steps of the server and the two
-- clients connects both: each in a loop with the connection established and the other as target.
pub both_can_connect :
    (w : World) (sa sb : UdpSocket)
    → IsWorld w
    → w.a_config.transaction_id ≡ w.b_config.transaction_id
    → w.a_config.transaction_id < 2 ^ 32
    → Connects w
unfolding is_over make_message
both_can_connect w sa sb v same h =
    let h' : w.b_config.transaction_id < 2 ^ 32 = subst (λ i. i < 2 ^ 32) same h in
    let up_a =
      call_round w.a_config (call_b w v sa sb) (posted (told_a w v sa sb)) (a_calls w v sa sb).0
        refl (call-id w.b_config w.a h' ∙ sym same) in
    let up_b =
      call_round w.b_config (call_a w v sa sb) (posted (told_b w v sa sb)) (b_calls w v sa sb).0
        refl (call-id w.a_config w.b h ∙ same) in
    let reached = both_called w v sa sb in
    let end = connected w v sa sb in
    record {
      end = end;
      reached = reached;
      loop_a = posted (called_a w v sa sb);
      loop_b = posted (called_b w v sa sb);
      is_a = refl;
      is_b = refl;
      a_up = record {
        up = up_a;
        target =
            success_means_peer w end first_side (posted (called_a w v sa sb)) v reached refl up_a;
      };
      b_up = record {
        up = up_b;
        target =
            success_means_peer w end second_side (posted (called_b w v sa sb)) v reached refl up_b;
      };
    }
