-- ===== src/Connector/Predicting/Whole.antt =====
-- `connect` of p2p_ps_connector.h as a whole.
use p2p_ps_stun.Prelude.{
  pos, ◌≤◌, ◌<◌, ◌≡◌, ◌∙◌, ap, refl, false, List, [], ◌∷◌, ◌++◌, length, All, arith,
}
use p2p_ps_stun.Double.{Double}
use p2p_ps_stun.Wire.MessageType
use p2p_ps_stun.Wire.{stun_server_addr}
use p2p_ps_stun.Ports.{PortManager}
use p2p_ps_stun.Socket.{UdpSocket, closes, wait_receive}
use p2p_ps_stun.Connector.Types.{
  connection_error, connection_failed_no_server_match_in_time, waiting_for_stun_reply,
}
use p2p_ps_stun.Connector.Scan.{Attempt}
use p2p_ps_stun.Connector.Predicting.{
  Config, Loop, Round, goes_on, attempts, attempts_after_reply, use_attempt, round, is_over,
  result_of, run, Connecting, returned, looping, Greeting, greet_first, greet_second, then_second,
  greet, close_helper, proceed, connect,
}
use p2p_ps_stun.Connector.Predicting.Rounds.{IsSilent, round-IsSilent, IsCoherent, Arrives, attempt}
use p2p_ps_stun.Connector.Predicting.Runs.{Returns, run-over, run-goes_on, run-Returns}

-- The loop after an attempt that reported success.
abbrev pub attempted : Loop → Attempt → Loop
attempted l a = use_attempt (record l {
  socket = a.socket;
  ports = a.ports;
  sent = l.sent ++ a.sent;
  closed = l.closed ++ a.closed;
  attempts_left = attempts_after_reply;
})

module _ (f d : Double) where
  round-attempted :
      (c : Config) (r : Round d) (l : Loop)
      → Arrives f d r
      → r.event.reception.msg.type ≡ MessageType.ps_bind_reply
      → r.event.reception.sender.addr ≡ (stun_server_addr c.stun_server_address1).addr
      → (attempt f d c r l).success ≡ pos 1
      → round f d c r l ≡ goes_on (attempted l (attempt f d c r l))
  unfolding round wait_receive
  round-attempted c r l h t s e = ground arith

  -- If the loop still waits for the server, whose reply (from its first address) then leads to an
  -- attempt that reports success, and nothing comes in the next round, the loop returns that the
  -- server found no match in time, although it has sent the attempt's requests to the peer.
  pub missed_peer_is_no_match :
      (c : Config) (r q : Round d) (l : Loop)
      → l.state ≡ waiting_for_stun_reply
      → l.connection_established ≡ false
      → 0 < l.attempts_left
      → Arrives f d r
      → r.event.reception.msg.type ≡ MessageType.ps_bind_reply
      → r.event.reception.sender.addr ≡ (stun_server_addr c.stun_server_address1).addr
      → (attempt f d c r l).success ≡ pos 1
      → IsSilent f d q
      → let l' = use_attempt (attempted l (attempt f d c r l)) in
        (run f d c l (r ∷ q ∷ []) ≡ returned connection_failed_no_server_match_in_time l')
        × (l'.sent ≡ l.sent ++ (attempt f d c r l).sent)
  unfolding is_over result_of
  missed_peer_is_no_match c r q l waits down some_left h t s e silent =
      let m = attempted l (attempt f d c r l) in
      (
        run-goes_on f d c l m r (q ∷ []) (ground arith) (round-attempted c r l h t s e)
            ∙ run-goes_on f d c m (use_attempt m) q [] (ground arith)
                (round-IsSilent f d c q m silent)
            ∙ run-over f d c (use_attempt m) [] (ground arith)
            ∙ ground arith,
        refl,
      )

module _ (d : Double) where
  abbrev Fresh : Connecting → Type 0
  Fresh (returned q l) = q ≡ connection_error
  Fresh (looping l) = IsCoherent l × (l.connection_established ≡ false)

  greet_second-Fresh :
      (c : Config) (g : Greeting d) (l : Loop)
      → l.connection_established ≡ false
      → Fresh (greet_second d c g l)
  unfolding greet_second
  greet_second-Fresh c g l down = ground arith

  abbrev Early : Connecting → Type 0
  Early (returned q l) = q ≡ connection_error
  Early (looping l) = l.connection_established ≡ false

  greet_first-Early :
      (c : Config) (s : UdpSocket) (ports : PortManager) (g : Greeting d)
      → Early (greet_first d c s ports g)
  unfolding greet_first
  greet_first-Early c s ports g = ground arith

  then_second-Fresh :
      (c : Config) (g : Greeting d) (k : Connecting) → Early k → Fresh (then_second d c g k)
  unfolding then_second
  then_second-Fresh c g (returned q l) h = h
  then_second-Fresh c g (looping l) h = greet_second-Fresh c g l h

  -- Before the loop `connect` returns an error, or it begins the loop in a coherent state.
  greet-Fresh :
      (c : Config) (s : UdpSocket) (ports : PortManager) (g : Greeting d)
      → Fresh (greet d c s ports g)
  unfolding greet
  greet-Fresh c s ports g = then_second-Fresh c g _ (greet_first-Early c s ports g)

close_helper-Returns : (k : Connecting) → Returns k → Returns (close_helper k)
unfolding close_helper
close_helper-Returns k (q, l, e) =
    (q, record l { closed = l.closed ++ closes l.socket2 }, ap close_helper e)

module _ (f d : Double) where
  proceed-Returns :
      (c : Config) (rs qs : List (Round d)) (k : Connecting)
      → Fresh d k
      → All (IsSilent f d) qs
      → attempts ≤ length qs
      → Returns (close_helper (proceed f d c (rs ++ qs) k))
  unfolding proceed close_helper
  proceed-Returns c rs qs (returned q l) v silent n = (q, _, refl)
  proceed-Returns c rs qs (looping l) v silent n =
      close_helper-Returns _ (run-Returns f d c l rs qs v.0 silent n)

  -- Whatever comes first, `connect` has returned after five further rounds in which `select` reports
  -- nothing.
  pub predicting_connect_returns :
      (c : Config) (s : UdpSocket) (ports : PortManager) (g : Greeting d) (rs qs : List (Round d))
      → All (IsSilent f d) qs
      → attempts ≤ length qs
      → Returns (connect f d c s ports g (rs ++ qs))
  unfolding connect
  predicting_connect_returns c s ports g rs qs silent n =
      proceed-Returns c rs qs (greet d c s ports g) (greet-Fresh d c s ports g) silent n
