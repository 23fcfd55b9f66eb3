-- ===== src/Network/Keeping.antt =====
-- What a step of a client of p2p_connector.h keeps in the network.
use p2p_ps_stun.Prelude.{ℕ, ◌+◌, ◌≤◌, ◌≡◌, inl, refl, List, All, total, arith}
use p2p_ps_stun.Wire.{SockaddrIn}
use p2p_ps_stun.Connector.Types.{make_message}
use p2p_ps_stun.Connector.Basic.{round}
use p2p_ps_stun.Network.{
  World, IsWorld, Packet, Client, idle, greeting, active, Act, begins, acknowledged, hears,
  hears_nothing,
}
use p2p_ps_stun.Network.Guidance.{IsGuided, round-IsGuided, silent-IsGuided, greet-IsGuided}
use p2p_ps_stun.Network.Truth.{
  Fine, request, Fine-IsTrue, calls-Fine, asks, calls-ask, is_from_refl,
}

abbrev pub IsSound : SockaddrIn → SockaddrIn → Client → Type 0
IsSound server peer idle = Unit
IsSound server peer (greeting s) = Unit
IsSound server peer (active l) = IsGuided server peer l

-- 1 for a client that has not asked yet.
abbrev pub will_ask : Client → ℕ
will_ask idle = 1
will_ask _ = 0

-- What a step of the first client keeps.
pub record Kept (w : World) (k : Client) (taken : List Packet) (k' : Client) (added : List Packet)
    : Type 0 where
  pub fine : All (Fine w) added
  pub sound : IsSound w.server w.b k'
  pub once_a : will_ask k' + total (asks w.a) added ≤ will_ask k + total (asks w.a) taken
  pub once_b : total (asks w.b) added ≡ 0

pub Act-Kept :
    (w : World) {k k' : Client} {taken added : List Packet}
    → IsWorld w
    → Act w.a w.a_config k taken k' added
    → All (Fine w) taken
    → IsSound w.server w.b k
    → Kept w k taken k' added
unfolding total make_message
Act-Kept w v (begins s) f g = record {
  fine = (request refl (inl refl), tt);
  sound = tt;
  once_a = rw (is_from_refl w.a) (omega arith);
  once_b = rw v.apart;
}
Act-Kept w v (acknowledged {s} {p} {l} r to h e) f g = record {
  fine = tt;
  sound = greet-IsGuided w.server w.b w.a_config s r l v.a_server e;
  once_a = omega arith;
  once_b = refl;
}
Act-Kept w v (hears {l} {p} e to h more) f g =
    let (guided, calls) =
      round-IsGuided w.server w.b w.a_config e l v.b_apart
        (Fine-IsTrue w p e.reception v.apart to h f.0) more g in
    record {
      fine = calls-Fine w (round w.a_config e l).sent calls;
      sound = guided;
      once_a = omega (arith, calls-ask w.a w.a w.b (round w.a_config e l).sent calls);
      once_b = calls-ask w.b w.a w.b (round w.a_config e l).sent calls;
    }
Act-Kept w v (hears_nothing {l} e quiet more) f g =
    let (guided, calls) = silent-IsGuided w.server w.b w.a_config e l quiet more g in
    record {
      fine = calls-Fine w (round w.a_config e l).sent calls;
      sound = guided;
      once_a = omega (arith, calls-ask w.a w.a w.b (round w.a_config e l).sent calls);
      once_b = calls-ask w.b w.a w.b (round w.a_config e l).sent calls;
    }
