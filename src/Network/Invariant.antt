-- ===== src/Network/Invariant.antt =====
-- What holds in every state of the network of udp_p2p_server.h and two clients of p2p_connector.h.
use p2p_ps_stun.Prelude.{
  ℕ, ◌+◌, ◌≤◌, ◌≡◌, ◌∙◌, inl, refl, ap, subst, List, [], ◌∷◌, ◌++◌, map, find, All, All-append,
  All-split, All-map, total, total-append, arith,
}
use p2p_ps_stun.Server.Types.{Datagram}
use p2p_ps_stun.Server.Loop.{on_message}
use p2p_ps_stun.Network.{
  World, IsWorld, Packet, Client, Network, start, answer, Receives, Act, Step, first_acts,
  second_acts, serves, loses, Reach, started, later,
}
use p2p_ps_stun.Network.Truth.{Fine, mirror, Fine-mirror, asks, is_from_sym}
use p2p_ps_stun.Network.Serving.{waits_as, Known, Known-mirror, serve-Served}
use p2p_ps_stun.Network.Keeping.{IsSound, will_ask, Act-Kept}

-- Each client asks once, and what is under way is true.
pub record Inv (w : World) (n : Network) : Type 0 where
  pub fine : All (Fine w) n.flight
  pub first : IsSound w.server w.b n.first
  pub second : IsSound w.server w.a n.second
  pub once_a : will_ask n.first + total (asks w.a) n.flight + waits_as w.a n.server ≤ 1
  pub once_b : will_ask n.second + total (asks w.b) n.flight + waits_as w.b n.server ≤ 1
  pub known : Known w n.server

pub IsWorld-mirror : (w : World) → IsWorld w → IsWorld (mirror w)
IsWorld-mirror w v = record {
  a_server = v.b_server;
  b_server = v.a_server;
  apart = is_from_sym w.a w.b v.apart;
  a_apart = v.b_apart;
  b_apart = v.a_apart;
}

abbrev turned : Network → Network
turned n = record n { first = n.second; second = n.first }

Inv-mirror : (w : World) (n : Network) → Inv w n → Inv (mirror w) (turned n)
Inv-mirror w n i = record {
  fine = All-map (Fine w) (Fine (mirror w)) (Fine-mirror w) n.flight i.fine;
  first = i.second;
  second = i.first;
  once_a = i.once_b;
  once_b = i.once_a;
  known = Known-mirror w n.server i.known;
}

-- The flight before and after a step.
total-around :
    (f : Packet → ℕ) (before xs after : List Packet)
    → total f (before ++ xs ++ after) ≡ total f before + total f xs + total f after
total-around f before xs after =
    omega (arith, total-append f (before ++ xs) after, total-append f before xs)

All-around :
    (P : Packet → Type 0) (before xs after : List Packet)
    → All P (before ++ xs ++ after)
    → All P before × (All P xs × All P after)
All-around P before xs after h =
    let (hl, ha) = All-split P (before ++ xs) after h in
    let (hb, hx) = All-split P before xs hl in (hb, (hx, ha))

around-All :
    (P : Packet → Type 0) (before xs after : List Packet)
    → All P before
    → All P xs
    → All P after
    → All P (before ++ xs ++ after)
around-All P before xs after hb hx ha =
    All-append P (before ++ xs) after (All-append P before xs hb hx) ha

first-Inv :
    (w : World) (n : Network) (before after taken added : List Packet) (k : Client)
    → IsWorld w
    → n.flight ≡ before ++ taken ++ after
    → Act w.a w.a_config n.first taken k added
    → Inv w n
    → Inv w (record n { first = k; flight = before ++ added ++ after })
first-Inv w n before after taken added k v e act i =
    let (hb, (hx, ha)) = All-around (Fine w) before taken after (subst (All (Fine w)) e i.fine) in
    let kept = Act-Kept w v act hx i.first in
    let a_flight = ap (total (asks w.a)) e ∙ total-around (asks w.a) before taken after in
    let b_flight = ap (total (asks w.b)) e ∙ total-around (asks w.b) before taken after in
    record {
      fine = around-All (Fine w) before added after hb kept.fine ha;
      first = kept.sound;
      second = i.second;
      once_a =
          omega
            (arith, a_flight, total-around (asks w.a) before added after, kept.once_a, i.once_a);
      once_b =
          omega
            (arith, b_flight, total-around (asks w.b) before added after, kept.once_b, i.once_b);
      known = i.known;
    }

second-Inv :
    (w : World) (n : Network) (before after taken added : List Packet) (k : Client)
    → IsWorld w
    → n.flight ≡ before ++ taken ++ after
    → Act w.b w.b_config n.second taken k added
    → Inv w n
    → Inv w (record n { second = k; flight = before ++ added ++ after })
second-Inv w n before after taken added k v e act i =
    Inv-mirror (mirror w) (record (turned n) { first = k; flight = before ++ added ++ after })
      (first-Inv (mirror w) (turned n) before after taken added k (IsWorld-mirror w v) e act
        (Inv-mirror w n i))

serve-Inv :
    (w : World) (n : Network) (p : Packet) (before after : List Packet) (d : Datagram)
    → IsWorld w
    → n.flight ≡ before ++ (p ∷ []) ++ after
    → Receives d p
    → Inv w n
    → Inv w (record n {
      server = (on_message n.server d).0;
      flight = before ++ map (answer w.server) (on_message n.server d).1 ++ after;
    })
unfolding total
serve-Inv w n p before after d v e r i =
    let (hb, (hx, ha)) =
      All-around (Fine w) before (p ∷ []) after (subst (All (Fine w)) e i.fine) in
    let a_flight = ap (total (asks w.a)) e ∙ total-around (asks w.a) before (p ∷ []) after in
    let b_flight = ap (total (asks w.b)) e ∙ total-around (asks w.b) before (p ∷ []) after in
    let out = map (answer w.server) (on_message n.server d).1 in
    let served =
      serve-Served w n.server p d v.apart hx.0 r i.known (omega (arith, i.once_a, a_flight))
        (omega (arith, i.once_b, b_flight)) in
    record {
      fine = around-All (Fine w) before out after hb served.answers ha;
      first = i.first;
      second = i.second;
      once_a = omega (
        arith,
        a_flight,
        total-around (asks w.a) before out after,
        served.unasked w.a,
        served.once_a,
        i.once_a,
      );
      once_b = omega (
        arith,
        b_flight,
        total-around (asks w.b) before out after,
        served.unasked w.b,
        served.once_b,
        i.once_b,
      );
      known = served.known;
    }

lose-Inv :
    (w : World) (n : Network) (p : Packet) (before after : List Packet)
    → n.flight ≡ before ++ (p ∷ []) ++ after
    → Inv w n
    → Inv w (record n { flight = before ++ after })
unfolding total
lose-Inv w n p before after e i =
    let (hb, (hx, ha)) =
      All-around (Fine w) before (p ∷ []) after (subst (All (Fine w)) e i.fine) in
    let a_flight = ap (total (asks w.a)) e ∙ total-around (asks w.a) before (p ∷ []) after in
    let b_flight = ap (total (asks w.b)) e ∙ total-around (asks w.b) before (p ∷ []) after in
    record {
      fine = All-append (Fine w) before after hb ha;
      first = i.first;
      second = i.second;
      once_a = omega (arith, a_flight, total-append (asks w.a) before after, i.once_a);
      once_b = omega (arith, b_flight, total-append (asks w.b) before after, i.once_b);
      known = i.known;
    }

Inv-start : (w : World) → Inv w start
unfolding total find
Inv-start w = record {
  fine = tt;
  first = tt;
  second = tt;
  once_a = omega arith;
  once_b = omega arith;
  known = inl refl;
}

Step-Inv : {w : World} {n m : Network} → IsWorld w → Step w n m → Inv w n → Inv w m
Step-Inv {w} {n} v (first_acts {taken} {added} {k} before after e act) i =
    first-Inv w n before after taken added k v e act i
Step-Inv {w} {n} v (second_acts {taken} {added} {k} before after e act) i =
    second-Inv w n before after taken added k v e act i
Step-Inv {w} {n} v (serves {p} before after d e to r) i = serve-Inv w n p before after d v e r i
Step-Inv {w} {n} v (loses p before after e) i = lose-Inv w n p before after e i

pub Reach-Inv : {w : World} {n : Network} → IsWorld w → Reach w n → Inv w n
Reach-Inv {w} v started = Inv-start w
Reach-Inv v (later r st) = Step-Inv v st (Reach-Inv v r)
