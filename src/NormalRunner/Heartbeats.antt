-- ===== src/NormalRunner/Heartbeats.antt =====
-- Where the heartbeats of main.cpp go, and what they hold.
use p2p_ps_stun.Prelude.{
  ℕ, ℤ, ◌+◌, ◌≤◌, ◌≡◌, ◌∙◌, refl, ap, is_negative, List, [], ◌∷◌, ◌++◌, length, length-append,
  take-all, if◌then◌else◌, arith,
}
use p2p_ps_stun.Wire.{SockaddrIn}
use p2p_ps_stun.Socket.{Reception, receive}
use p2p_ps_stun.Connection.{UdpConnection, connection_receive}
use p2p_ps_stun.NormalRunner.{Turn, receives, beats, session, heartbeat}

-- The sender of the last datagram, or `peer` while there is none.
abbrev pub last_sender : SockaddrIn → List Turn → SockaddrIn
last_sender peer [] = peer
last_sender peer (receives r ∷ ts) =
    last_sender (if is_negative r.result then peer else r.sender) ts
last_sender peer (beats e ∷ ts) = last_sender peer ts

session-append :
    (ts us : List Turn) (c : UdpConnection)
    → (session (ts ++ us) c).1 ≡ (session ts c).1 ++ (session us (session ts c).0).1
unfolding session
session-append [] us c = refl
session-append (receives r ∷ ts) us c = session-append ts us (connection_receive r c).0
session-append (beats e ∷ ts) us c = ap (λ l. c.socket.target_address ∷ l) (session-append ts us c)

receive-target :
    (r : Reception) (c : UdpConnection)
    → (connection_receive r c).0.socket.target_address
      ≡ (if is_negative r.result then c.socket.target_address else r.sender)
unfolding connection_receive receive
receive-target r c = ground arith

session-last_sender :
    (ts : List Turn) (c : UdpConnection)
    → (session ts c).0.socket.target_address ≡ last_sender c.socket.target_address ts
unfolding session
session-last_sender [] c = refl
session-last_sender (receives r ∷ ts) c =
    session-last_sender ts (connection_receive r c).0
    ∙ ap (λ a. last_sender a ts) (receive-target r c)
session-last_sender (beats e ∷ ts) c = session-last_sender ts c

-- After any turns of the two threads, the next heartbeat goes to whoever sent the last datagram, and
-- to the peer that `connect` found only while nothing has been received.
pub heartbeats_follow_last_sender :
    (ts : List Turn) (c : UdpConnection) (e : ℤ)
    → (session (ts ++ beats e ∷ []) c).1
      ≡ (session ts c).1 ++ last_sender c.socket.target_address ts ∷ []
heartbeats_follow_last_sender ts c e =
    session-append ts (beats e ∷ []) c
    ∙ unfold session in ap (λ a. (session ts c).1 ++ a ∷ []) (session-last_sender ts c)

-- With an address of at most 15 bytes, as `inet_ntoa` writes it, a heartbeat is sent whole, with a
-- zero byte at its end, from within its buffer.
pub heartbeat_fits :
    (own_address : List ℕ)
    → length own_address ≤ 15
    → (length (heartbeat own_address).0 + 1 ≡ (heartbeat own_address).1)
      × ((heartbeat own_address).1 ≤ 254)
unfolding heartbeat
heartbeat_fits own_address h =
    let text = own_address ++ 32 ∷ 124 ∷ 32 ∷ 72 ∷ 105 ∷ 33 ∷ [] in
    let n = length-append own_address (32 ∷ 124 ∷ 32 ∷ 72 ∷ 105 ∷ 33 ∷ []) in
    (ap (λ l. length l + 1) (take-all 253 text (omega (arith, n))), omega (arith, n))
