-- ===== src/Server/Loop/Dispatch.antt =====
-- The cases of the `switch` in udp_p2p_server.h.
use p2p_ps_stun.Prelude.{ℕ, ◌≡◌, ◌≢◌, inl, inr, Bool-cases, false, List, [], ◌==◌, ==_iff, arith}
use p2p_ps_stun.Wire.MessageType
use p2p_ps_stun.Server.Types.{Server, Sent, Datagram}
use p2p_ps_stun.Server.Relay.{on_bind_request}
use p2p_ps_stun.Server.Prediction.{on_ps_bind_request}
use p2p_ps_stun.Server.Loop.{on_heartbeat, on_message}

other_type : {a b : ℕ} → (a == b) ≡ false → a ≢ b
other_type {a} {b} h e = ground arith

-- To prove a statement of a handled message, prove it of each handler.
pub on_message_cases {ℓ} :
    (P : Server × List Sent → Type ℓ) (s : Server) (d : Datagram)
    → (d.msg.type ≡ MessageType.ps_bind_request → P (on_ps_bind_request s d))
    → (d.msg.type ≡ MessageType.bind_request → P (on_bind_request s d))
    → (d.msg.type ≢ MessageType.bind_request → P (on_heartbeat s d))
    → (d.msg.type ≢ MessageType.bind_request → P (s, []))
    → P (on_message s d)
unfolding on_message
on_message_cases P s d ps basic beat other =
    let type = d.msg.type in
    elim (Bool-cases (type == MessageType.ps_bind_request)) [
      | inl e ↦ rw e (ps ((==_iff _ _).0 e))
      | inr e ↦ rw e (elim (Bool-cases (type == MessageType.bind_request)) [
        | inl f ↦ rw f (basic ((==_iff _ _).0 f))
        | inr f ↦ rw f (elim (Bool-cases (type == MessageType.heartbeat)) [
          | inl g ↦ rw g (beat (other_type f))
          | inr g ↦ rw g (other (other_type f))
        ])
      ])
    ]
