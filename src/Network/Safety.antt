-- ===== src/Network/Safety.antt =====
-- Whom the clients of p2p_connector.h connect to.
use p2p_ps_stun.Prelude.{◌≡◌, true, subst}
use p2p_ps_stun.Wire.{SockaddrIn}
use p2p_ps_stun.Connector.Basic.{Loop}
use p2p_ps_stun.Network.{World, IsWorld, Client, active, Network, Reach}
use p2p_ps_stun.Network.Keeping.{IsSound}
use p2p_ps_stun.Network.Invariant.{Reach-Inv}

pub data Side : Type 0 where
  first_side second_side : Side

abbrev pub client : Side → Network → Client
client first_side n = n.first
client second_side n = n.second

abbrev pub peer : Side → World → SockaddrIn
peer first_side w = w.b
peer second_side w = w.a

sound :
    (w : World) (n : Network) (who : Side)
    → IsWorld w
    → Reach w n
    → IsSound w.server (peer who w) (client who n)
sound w n first_side v r = (Reach-Inv v r).first
sound w n second_side v r = (Reach-Inv v r).second

-- However the packets of the server and two clients at three different endpoints are delayed,
-- reordered or lost, as long as none is delivered twice: a client whose connection is established
-- sends to the other client.
pub success_means_peer :
    (w : World) (n : Network) (who : Side) (l : Loop)
    → IsWorld w
    → Reach w n
    → client who n ≡ active l
    → l.connection_established ≡ true
    → l.socket.target_address ≡ peer who w
success_means_peer w n who l v r e up =
    (subst (IsSound w.server (peer who w)) e (sound w n who v r)).up up
