-- ===== src/Network/Predicting/Safety.antt =====
-- A predicting client that connects has found the other client's host.
use p2p_ps_stun.Prelude.{ℕ, ◌≡◌, true, subst}
use p2p_ps_stun.Double.{Double}
use p2p_ps_stun.Connector.Predicting.{Loop}
use p2p_ps_stun.Network.Safety.{Side, first_side, second_side}
use p2p_ps_stun.Network.Predicting.{World, IsWorld, Client, active, Network, Reach}
use p2p_ps_stun.Network.Predicting.Invariant.{IsSound, Reach-Inv}

abbrev pub client : Side → Network → Client
client first_side n = n.first
client second_side n = n.second

abbrev pub peer : Side → World → ℕ
peer first_side w = w.b.host
peer second_side w = w.a.host

sound :
    (f d : Double) (w : World) (n : Network) (who : Side)
    → IsWorld w
    → Reach f d w n
    → IsSound (peer who w) (client who n)
sound f d w n first_side v r = (Reach-Inv f d v r).first
sound f d w n second_side v r = (Reach-Inv f d v r).second

-- However the packets of the server and two predicting clients on different hosts are delayed,
-- reordered, lost or repeated, whatever ports their NATs use, whatever the clocks and the
-- floating-point numbers give and whichever sockets of a scan are ready: a client whose connection is
-- established sends to the other client's host.
pub predicting_success_means_peer :
    (f d : Double) (w : World) (n : Network) (who : Side) (l : Loop)
    → IsWorld w
    → Reach f d w n
    → client who n ≡ active l
    → l.connection_established ≡ true
    → l.socket.target_address.addr ≡ peer who w
predicting_success_means_peer f d w n who l v r e up =
    (subst (IsSound (peer who w)) e (sound f d w n who v r)).guided.up up
