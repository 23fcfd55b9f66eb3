-- ===== src/Connector/Predicting/Rounds.antt =====
-- What one round of the loop of p2p_ps_connector.h can do.
use p2p_ps_stun.Prelude.{is_positive, is_zero, is_minus_one, ◌≤◌, ◌≡◌, ◌⊎◌, true, false, arith}
use p2p_ps_stun.Wire.{ntohl, transaction_id, stun_server_addr}
use p2p_ps_stun.Wire.MessageType
use p2p_ps_stun.Double.{Double}
use p2p_ps_stun.Socket.{wait_receive}
use p2p_ps_stun.Connector.Types.{
  connection_failed, connected, waiting_for_stun_reply, reply_to_bind_request,
}
use p2p_ps_stun.Connector.Scan.{Attempt, try_start_ps_connection}
use p2p_ps_stun.Connector.Predicting.{
  Config, Loop, Round, After, goes_on, returns, attempts, use_attempt, after_attempt, round,
}

module _ (f d : Double) where
  -- `select` reports no data, or an error.
  abbrev pub IsSilent : Round d → Type 0
  IsSilent r = is_positive r.event.reception.select_result ≡ false

  -- A silent round uses one attempt and does nothing else.
  pub round-IsSilent :
      (c : Config) (r : Round d) (l : Loop) → IsSilent r → round f d c r l ≡ goes_on (use_attempt l)
  unfolding round wait_receive
  round-IsSilent c r l h = ground arith

-- The state is `connected` exactly while the connection is established, and otherwise that of the
-- wait for the server.
pub record IsCoherent (l : Loop) : Type 0 where
  pub up : l.connection_established ≡ true → l.state ≡ connected
  pub down : l.connection_established ≡ false → l.state ≡ waiting_for_stun_reply
  pub few : l.attempts_left ≤ attempts

-- What holds after a round that does not end `connect`.
abbrev pub Then : (Loop → Type 0) → After → Type 0
Then P (goes_on l) = P l
Then P (returns q l) = q ≡ connection_failed

module _ (f d : Double) where
  after_attempt-IsCoherent :
      (l : Loop) (a : Attempt) → IsCoherent l → Then IsCoherent (after_attempt l a)
  unfolding after_attempt
  after_attempt-IsCoherent l a v = ground arith

  pub round-IsCoherent :
      (c : Config) (r : Round d) (l : Loop)
      → l.connection_established ≡ false
      → IsCoherent l
      → Then IsCoherent (round f d c r l)
  unfolding round wait_receive reply_to_bind_request
  round-IsCoherent c r l h v = ground arith

  -- A datagram arrives, of at least one byte.
  abbrev pub Arrives : Round d → Type 0
  Arrives r =
      (is_positive r.event.reception.select_result ≡ true)
      × (is_positive r.event.reception.result ≡ true)

  -- A peer's message that ends the loop with success: a request with the connector's transaction id
  -- from anybody, or a response from the socket's target.
  abbrev pub Accepts : Config → Round d → Loop → Type 0
  Accepts c r l =
      let m = r.event.reception.msg in
      Arrives r
      × (((m.type ≡ MessageType.client_bind_request)
            × (ntohl (transaction_id m.message) ≡ c.transaction_id))
          ⊎ ((m.type ≡ MessageType.client_bind_response)
              × (r.event.reception.sender.addr ≡ l.socket.target_address.addr)
              × (r.event.reception.sender.port ≡ l.socket.target_address.port)))

  -- The attempt that a round makes if it is given a reply of the server.
  abbrev pub attempt : Config → Round d → Loop → Attempt
  attempt c r l =
      try_start_ps_connection d f c.is_sym_nat c.transaction_id l.base_port
        (r.event.reception.msg.message)
        (record (l.socket) { peer_address = r.event.reception.sender }) l.ports r.trial

  -- A ps_bind_reply from an address of the server, for which the attempt does not report success.
  abbrev pub Refuses : Config → Round d → Loop → Type 0
  Refuses c r l =
      Arrives r
      × (r.event.reception.msg.type ≡ MessageType.ps_bind_reply)
      × ((r.event.reception.sender.addr ≡ (stun_server_addr c.stun_server_address1).addr)
          ⊎ (r.event.reception.sender.addr ≡ (stun_server_addr c.stun_server_address2).addr))
      × ((is_minus_one (attempt c r l).success ≡ true) ⊎ (is_zero (attempt c r l).success ≡ true))

  -- What a round that ends something was given.
  abbrev pub Cause : Config → Round d → Loop → After → Type 0
  Cause c r l (goes_on l') = l'.connection_established ≡ true → Accepts c r l
  Cause c r l (returns q l') = Refuses c r l

  pub round-Cause :
      (c : Config) (r : Round d) (l : Loop)
      → l.connection_established ≡ false
      → Cause c r l (round f d c r l)
  unfolding round wait_receive reply_to_bind_request
  round-Cause c r l h = ground arith
