-- ===== src/Network/Guidance.antt =====
-- What a client of p2p_connector.h does while all that it hears comes from the server and one peer.
use p2p_ps_stun.Prelude.{
  ℤ, ◌∙◌, inl, inr, Bool-cases, is_zero, is_positive, is_negative, ◌≡◌, ◌⊎◌, true, false, [], All,
  arith,
}
use p2p_ps_stun.Wire.{SockaddrIn, bind_reply, stun_server_addr}
use p2p_ps_stun.Wire.MessageType
use p2p_ps_stun.Socket.{UdpSocket, Reception, wait_receive, send, set_target_address}
use p2p_ps_stun.Connector.Types.{
  waiting_for_client_reply, Outgoing, Event, make_message, try_connect_to_client,
  reply_to_bind_request,
}
use p2p_ps_stun.Connector.Basic.{
  Config, Loop, Greeting, looping, greet, round, is_over, is_from, use_attempt, on_timeout,
  on_message, on_bind_reply, on_client_bind_request,
}
use p2p_ps_stun.Connector.Basic.Rounds.{IsSilent}
use p2p_ps_stun.Network.{posted}

-- The loop's socket is aimed at the server or the peer, and at the peer once it matters.
pub record IsGuided (server peer : SockaddrIn) (l : Loop) : Type 0 where
  pub outbox : l.sent ≡ []
  pub aim : (l.socket.target_address ≡ server) ⊎ (l.socket.target_address ≡ peer)
  pub waits : l.state ≡ waiting_for_client_reply → l.socket.target_address ≡ peer
  pub up : l.connection_established ≡ true → l.socket.target_address ≡ peer

-- A client's message to its peer.
pub record Calls (peer : SockaddrIn) (o : Outgoing) : Type 0 where
  pub kind :
      (o.msg.type ≡ MessageType.client_bind_request)
      ⊎ (o.msg.type ≡ MessageType.client_bind_response)
  pub address : o.to ≡ peer

-- What a reception may tell a client.
pub record IsTrue (peer : SockaddrIn) (r : Reception) : Type 0 where
  pub replies : r.msg.type ≡ MessageType.bind_reply → bind_reply (r.msg.message) ≡ peer
  pub requests : r.msg.type ≡ MessageType.client_bind_request → r.sender ≡ peer
  pub responses : r.msg.type ≡ MessageType.client_bind_response → r.sender ≡ peer

-- A loop whose messages go to the peer, and are posted.
abbrev IsOnCourse : SockaddrIn → SockaddrIn → Loop → Type 0
IsOnCourse server peer l = IsGuided server peer (posted l) × All (Calls peer) l.sent

module _ (server peer : SockaddrIn) (c : Config) (e : Event) where
  use_attempt-IsGuided :
      (l : Loop) → IsGuided server peer l → IsOnCourse server peer (use_attempt l)
  use_attempt-IsGuided l v = ground arith

  on_bind_reply-IsGuided :
      (l : Loop)
      → bind_reply (e.reception.msg.message) ≡ peer
      → l.connection_established ≡ false
      → IsGuided server peer l
      → IsOnCourse server peer (on_bind_reply c e l)
  unfolding on_bind_reply try_connect_to_client make_message set_target_address send
  on_bind_reply-IsGuided l h down v = ground arith

  on_client_bind_request-IsGuided :
      (l : Loop)
      → l.socket.peer_address ≡ peer
      → l.connection_established ≡ false
      → IsGuided server peer l
      → IsOnCourse server peer (on_client_bind_request c e l)
  unfolding on_client_bind_request reply_to_bind_request make_message set_target_address send
  on_client_bind_request-IsGuided l h down v = ground arith

  on_message-IsGuided :
      (l : Loop)
      → is_from peer server ≡ false
      → IsTrue peer e.reception
      → l.socket.peer_address ≡ e.reception.sender
      → l.connection_established ≡ false
      → IsGuided server peer l
      → IsOnCourse server peer (on_message c e l)
  unfolding on_message
  on_message-IsGuided l apart true_told from down v =
      let replied : e.reception.msg.type ≡ MessageType.bind_reply
          → IsOnCourse server peer (on_bind_reply c e l) =
        λ h. on_bind_reply-IsGuided l (true_told.replies h) down v in
      let requested : e.reception.msg.type ≡ MessageType.client_bind_request
          → IsOnCourse server peer (on_client_bind_request c e l) =
        λ h. on_client_bind_request-IsGuided l (from ∙ true_told.requests h) down v in
      ground (arith, replied, requested, use_attempt-IsGuided l v)

  on_timeout-IsGuided :
      (l : Loop)
      → l.connection_established ≡ false
      → IsGuided server peer l
      → IsOnCourse server peer (on_timeout c e l.state l)
  unfolding on_timeout try_connect_to_client make_message send
  on_timeout-IsGuided l down v = ground arith

  abbrev heard : Loop → Loop
  heard l = record l { socket = (wait_receive l.socket e.reception).0 }

  heard-IsGuided : (l : Loop) → IsGuided server peer l → IsGuided server peer (heard l)
  unfolding wait_receive
  heard-IsGuided l v = ground arith

  is_down : (l : Loop) → is_over l ≡ false → l.connection_established ≡ false
  unfolding is_over
  is_down l more = ground arith

  abbrev result : Loop → ℤ
  result l = (wait_receive l.socket e.reception).1

  -- A round stays on course if it does with a message.
  by_message :
      (l : Loop)
      → is_over l ≡ false
      → (is_zero (result l) ≡ false
          → is_negative (result l) ≡ false
          → IsOnCourse server peer (on_message c e (heard l)))
      → IsGuided server peer l
      → IsOnCourse server peer (round c e l)
  unfolding round
  by_message l more message v =
      let v' = heard-IsGuided l v in
      elim (Bool-cases (is_zero (result l))) [
        | inl z ↦ rw (z, round) (on_timeout-IsGuided (heard l) (is_down l more) v')
        | inr z ↦ elim (Bool-cases (is_negative (result l))) [
          | inl n ↦ rw (z, n, round) (use_attempt-IsGuided (heard l) v')
          | inr n ↦ rw (z, n, round) (message z n)
        ]
      ]

  heard_from :
      (l : Loop)
      → is_zero (result l) ≡ false
      → is_negative (result l) ≡ false
      → (is_positive e.reception.select_result ≡ true)
        × ((heard l).socket.peer_address ≡ e.reception.sender)
  unfolding wait_receive
  heard_from l z n = ground arith

  pub round-IsGuided :
      (l : Loop)
      → is_from peer server ≡ false
      → IsTrue peer e.reception
      → is_over l ≡ false
      → IsGuided server peer l
      → IsGuided server peer (posted (round c e l)) × All (Calls peer) (round c e l).sent
  round-IsGuided l apart true_told more v =
      by_message l more
        (λ z n.
          on_message-IsGuided (heard l) apart true_told (heard_from l z n).1 (is_down l more)
            (heard-IsGuided l v))
        v

  is_silent : IsSilent e → is_positive e.reception.select_result ≡ true → ⊥
  is_silent quiet h = ground arith

  pub silent-IsGuided :
      (l : Loop)
      → IsSilent e
      → is_over l ≡ false
      → IsGuided server peer l
      → IsGuided server peer (posted (round c e l)) × All (Calls peer) (round c e l).sent
  silent-IsGuided l quiet more v =
      by_message l more (λ z n. absurd (is_silent quiet (heard_from l z n).0)) v

pub greet-IsGuided :
    (server peer : SockaddrIn) (c : Config) (s : UdpSocket) (g : Greeting) (l : Loop)
    → stun_server_addr c.stun_server_address ≡ server
    → greet c s g ≡ looping l
    → IsGuided server peer (posted l)
unfolding greet wait_receive send set_target_address
greet-IsGuided server peer c s g l known h = ground arith
