-- ===== src/Network/Predicting/Guidance.antt =====
-- What a client of p2p_ps_connector.h does while all that it hears comes from the server and one
-- other host.
use p2p_ps_stun.Prelude.{
  ℕ, ℤ, if_both, not, ◌&&◌, ◌||◌, ◌==◌, ==_iff, ◌≡◌, ◌⊎◌, ◌∙◌, ap, inl, inr, true, false,
  Bool-cases, is_minus_one, is_positive, is_negative, is_zero, [], ◌++◌, All, All-map, arith,
}
use p2p_ps_stun.Wire.{stun_server_addr}
use p2p_ps_stun.Wire.MessageType
use p2p_ps_stun.Double.{Double}
use p2p_ps_stun.Ports.{PortManager}
use p2p_ps_stun.Socket.{UdpSocket, Reception, set_target_address, wait_receive}
use p2p_ps_stun.Connector.Types.{
  connected, ConnectResult, Outgoing, Event, make_message, reply_to_bind_request,
}
use p2p_ps_stun.Connector.Scan.{Attempt}
use p2p_ps_stun.Connector.Scan.Sent.{Calls, IsAimed, attempt-IsAimed}
use p2p_ps_stun.Connector.Predicting.{
  Config, Loop, Round, Greeting, looping, greet_first, greet_second, After, goes_on, returns,
  use_attempt, on_client_bind_request, after_attempt, on_ps_bind_reply, on_message, round, is_over,
}

-- A client's message to the peer's host.
pub record Talks (peer : ℕ) (o : Outgoing) : Type 0 where
  pub kind :
      (o.msg.type ≡ MessageType.client_bind_request)
      ⊎ (o.msg.type ≡ MessageType.client_bind_response)
  pub host : o.to.addr ≡ peer

-- What a reception may tell a client.
pub record IsTrue (peer : ℕ) (r : Reception) : Type 0 where
  pub replies : r.msg.type ≡ MessageType.ps_bind_reply → r.msg.message.addr_one.addr ≡ peer
  pub requests : r.msg.type ≡ MessageType.client_bind_request → r.sender.addr ≡ peer
  pub responses : r.msg.type ≡ MessageType.client_bind_response → r.sender.addr ≡ peer

-- A connected client's socket is aimed at the peer's host.
pub record IsGuided (peer : ℕ) (l : Loop) : Type 0 where
  pub up : l.connection_established ≡ true → l.socket.target_address.addr ≡ peer

-- After a round.
pub data IsOnCourse (peer : ℕ) : After → Type 0 where
  still : {l : Loop} → IsGuided peer l → All (Talks peer) l.sent → IsOnCourse peer (goes_on l)
  over : {q : ConnectResult} {l : Loop} → All (Talks peer) l.sent → IsOnCourse peer (returns q l)

Calls-Talks : (peer : ℕ) (o : Outgoing) → Calls peer o → Talks peer o
Calls-Talks peer o h = record { kind = inl h.kind; host = h.host }

-- A loop that is not connected and has nothing to post.
pub record IsOpen (l : Loop) : Type 0 where
  pub outbox : l.sent ≡ []
  pub down : l.connection_established ≡ false

module _ (f d : Double) (peer : ℕ) where
  waits : (l : Loop) → IsOpen l → IsOnCourse peer (goes_on l)
  waits l v = still (record { up = ground arith }) (rw v.outbox tt)

  waits_less : (l : Loop) → IsOpen l → IsOnCourse peer (goes_on (use_attempt l))
  waits_less l v = still (record { up = ground arith }) (rw v.outbox tt)

  request_heard :
      (c : Config) (e : Event) (l : Loop)
      → l.socket.peer_address.addr ≡ peer
      → IsOpen l
      → IsOnCourse peer (goes_on (on_client_bind_request c e l))
  unfolding on_client_bind_request reply_to_bind_request make_message set_target_address
  request_heard c e l h v = still (record { up = ground arith }) (ground arith)

  attempted :
      (l : Loop) (a : Attempt) → IsOpen l → IsAimed peer a → IsOnCourse peer (after_attempt l a)
  unfolding after_attempt
  attempted l a v aimed =
      let sent : All (Talks peer) (l.sent ++ a.sent) =
        rw v.outbox (All-map (Calls peer) (Talks peer) (Calls-Talks peer) a.sent aimed.calls) in
      if_both (IsOnCourse peer) (is_minus_one a.success) _ _ (over sent) (
        if_both (IsOnCourse peer) (is_zero a.success) _ _ (over sent)
          (still (record { up = ground arith }) sent))

  reply_heard :
      (c : Config) (r : Round d) (l : Loop)
      → r.event.reception.msg.message.addr_one.addr ≡ peer
      → IsOpen l
      → IsOnCourse peer (on_ps_bind_reply f d c r l)
  unfolding on_ps_bind_reply
  reply_heard c r l h v =
      let reply = r.event.reception.msg.message in
      attempted l _ v (
        attempt-IsAimed d peer f c.is_sym_nat c.transaction_id l.base_port reply l.socket l.ports
          r.trial h)

  response_heard :
      (l : Loop)
      → l.socket.peer_address.addr ≡ peer
      → (not (l.socket.peer_address.addr == l.socket.target_address.addr)
          || not (l.socket.peer_address.port == l.socket.target_address.port))
        ≡ false
      → IsOpen l
      → IsOnCourse peer (goes_on (record l { state = connected; connection_established = true }))
  response_heard l h same v = still (record { up = ground arith }) (rw v.outbox tt)

  message_heard :
      (c : Config) (r : Round d) (l : Loop)
      → IsTrue peer r.event.reception
      → l.socket.peer_address ≡ r.event.reception.sender
      → IsOpen l
      → IsOnCourse peer (on_message f d c r l)
  unfolding on_message
  message_heard c r l true_told from v =
      let type = r.event.reception.msg.type in
      let sender = ap (λ a. a.addr) from in
      let unknown =
        not (l.socket.peer_address.addr == (stun_server_addr c.stun_server_address2).addr)
        && not (l.socket.peer_address.addr == (stun_server_addr c.stun_server_address1).addr) in
      let other =
        not (l.socket.peer_address.addr == l.socket.target_address.addr)
        || not (l.socket.peer_address.port == l.socket.target_address.port) in
      elim (Bool-cases (type == MessageType.ps_bind_reply)) [
        | inl e ↦ rw e (
            if_both (IsOnCourse peer) unknown _ _ (waits l v)
              (reply_heard c r l (true_told.replies ((==_iff _ _).0 e)) v))
        | inr e ↦ rw e (elim (Bool-cases (type == MessageType.client_bind_request)) [
          | inl g ↦
              rw g (request_heard c r.event l (sender ∙ true_told.requests ((==_iff _ _).0 g)) v)
          | inr g ↦ rw g (elim (Bool-cases (type == MessageType.client_bind_response)) [
            | inl h ↦ rw h (elim (Bool-cases other) [
              | inl k ↦ rw k (waits l v)
              | inr k ↦
                  rw k (response_heard l (sender ∙ true_told.responses ((==_iff _ _).0 h)) k v)
            ])
            | inr h ↦ rw h (
                if_both (IsOnCourse peer) (type == MessageType.ack) _ _ (waits l v)
                  (waits_less l v))
          ])
        ])
      ]

  abbrev heard : Round d → Loop → Loop
  heard r l = record l { socket = (wait_receive l.socket r.event.reception).0 }

  abbrev result : Round d → Loop → ℤ
  result r l = (wait_receive l.socket r.event.reception).1

  heard_from :
      (r : Round d) (l : Loop)
      → is_zero (result r l) ≡ false
      → is_negative (result r l) ≡ false
      → (is_positive r.event.reception.select_result ≡ true)
        × ((heard r l).socket.peer_address ≡ r.event.reception.sender)
  unfolding wait_receive
  heard_from r l z n = ground arith

  -- A round that is not connected stays on course, if it does with a message.
  by_message :
      (c : Config) (r : Round d) (l : Loop)
      → IsOpen l
      → (is_positive r.event.reception.select_result ≡ true
          → (heard r l).socket.peer_address ≡ r.event.reception.sender
          → IsOnCourse peer (on_message f d c r (heard r l)))
      → IsOnCourse peer (round f d c r l)
  unfolding round
  by_message c r l v message =
      let v' : IsOpen (heard r l) = record { outbox = v.outbox; down = v.down } in
      elim (Bool-cases (is_zero (result r l))) [
        | inl z ↦ rw z (waits_less (heard r l) v')
        | inr z ↦ elim (Bool-cases (is_negative (result r l))) [
          | inl n ↦ rw (z, n) (waits_less (heard r l) v')
          | inr n ↦ let h = heard_from r l z n in rw (z, n) (message h.0 h.1)
        ]
      ]

  is_open : (l : Loop) → l.sent ≡ [] → is_over l ≡ false → IsOpen l
  unfolding is_over
  is_open l outbox more = record { outbox = outbox; down = ground arith }

  pub round-IsOnCourse :
      (c : Config) (r : Round d) (l : Loop)
      → l.sent ≡ []
      → is_over l ≡ false
      → (is_positive r.event.reception.select_result ≡ true → IsTrue peer r.event.reception)
      → IsOnCourse peer (round f d c r l)
  round-IsOnCourse c r l outbox more told =
      let v = is_open l outbox more in
      by_message c r l v (λ h from.
        message_heard c r (heard r l) (told h) from (record { outbox = v.outbox; down = v.down }))

pub down-IsGuided : (peer : ℕ) (l : Loop) → l.connection_established ≡ false → IsGuided peer l
down-IsGuided peer l h = record { up = ground arith }

-- Before the loop nothing is connected.
pub greet_first-down :
    (d : Double) (c : Config) (s : UdpSocket) (ports : PortManager) (g : Greeting d) (l : Loop)
    → greet_first d c s ports g ≡ looping l
    → l.connection_established ≡ false
unfolding greet_first
greet_first-down d c s ports g l e = ground arith

pub greet_second-down :
    (d : Double) (c : Config) (g : Greeting d) (l l' : Loop)
    → l.connection_established ≡ false
    → greet_second d c g l ≡ looping l'
    → l'.connection_established ≡ false
unfolding greet_second
greet_second-down d c g l l' h e = ground arith
