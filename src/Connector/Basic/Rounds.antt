-- ===== src/Connector/Basic/Rounds.antt =====
-- What one round of the loop of p2p_connector.h can do.
use p2p_ps_stun.Prelude.{is_positive, ◌-◌, ◌≤◌, ◌≡◌, ◌≢◌, ◌⊎◌, true, false, arith}
use p2p_ps_stun.Wire.{ntohl, transaction_id}
use p2p_ps_stun.Wire.MessageType
use p2p_ps_stun.Socket.{wait_receive}
use p2p_ps_stun.Connector.Types.{connected, Event, reply_to_bind_request}
use p2p_ps_stun.Connector.Basic.{Config, Loop, attempts, round}

-- `select` reports no data, or an error.
abbrev pub IsSilent : Event → Type 0
IsSilent e = is_positive e.reception.select_result ≡ false

-- A silent round uses one attempt.
pub round-IsSilent :
    (c : Config) (e : Event) (l : Loop)
    → IsSilent e
    → ((round c e l).attempts_left ≡ l.attempts_left - 1)
      × ((round c e l).connection_established ≡ l.connection_established)
unfolding round wait_receive
round-IsSilent c e l h = ground arith

pub round-attempts :
    (c : Config) (e : Event) (l : Loop)
    → l.attempts_left ≤ attempts
    → (round c e l).attempts_left ≤ attempts
unfolding round wait_receive
round-attempts c e l h = ground arith

-- A datagram arrives, of at least one byte.
abbrev pub Arrives : Event → Type 0
Arrives e = (is_positive e.reception.select_result ≡ true) × (is_positive e.reception.result ≡ true)

-- A peer's message that ends the loop with success: a request with the connector's own transaction
-- id from anybody, or a response from the socket's target.
abbrev pub Accepts : Config → Event → Loop → Type 0
Accepts c e l =
    Arrives e
    × (((e.reception.msg.type ≡ MessageType.client_bind_request)
          × (ntohl (transaction_id (e.reception.msg.message)) ≡ c.transaction_id))
        ⊎ ((e.reception.msg.type ≡ MessageType.client_bind_response)
            × (e.reception.sender.addr ≡ l.socket.target_address.addr)
            × (e.reception.sender.port ≡ l.socket.target_address.port)))

-- A round establishes the connection only by such a message.
pub round-Accepts :
    (c : Config) (e : Event) (l : Loop)
    → l.connection_established ≡ false
    → (round c e l).connection_established ≡ true
    → Accepts c e l
unfolding round wait_receive reply_to_bind_request
round-Accepts c e l h k = ground arith

-- The state is `connected` exactly while the connection is established.
pub record IsCoherent (l : Loop) : Type 0 where
  pub up : l.connection_established ≡ true → l.state ≡ connected
  pub down : l.connection_established ≡ false → l.state ≢ connected

pub round-IsCoherent :
    (c : Config) (e : Event) (l : Loop)
    → l.connection_established ≡ false
    → IsCoherent l
    → IsCoherent (round c e l)
unfolding round wait_receive reply_to_bind_request
round-IsCoherent c e l h v = ground arith
