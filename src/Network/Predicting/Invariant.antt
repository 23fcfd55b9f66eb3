-- ===== src/Network/Predicting/Invariant.antt =====
-- What holds in every state of the network of udp_p2p_server.h and two clients of p2p_ps_connector.h.
use mathlib.Core.List.{Memᴰ}
use p2p_ps_stun.Prelude.{
  ℕ, ◌≡◌, ◌≢◌, ◌∙◌, ap, sym, subst, inl, inr, refl, find, Bool, false, true, List, [], ◌++◌, All,
  All-append, All-map, arith,
}
use p2p_ps_stun.Wire.MessageType
use p2p_ps_stun.Double.{Double}
use p2p_ps_stun.Server.Types.{Datagram}
use p2p_ps_stun.Server.Loop.{on_message}
use p2p_ps_stun.Connector.Types.{ConnectResult, Outgoing, make_message}
use p2p_ps_stun.Connector.Predicting.{Loop, After, goes_on, returns}
use p2p_ps_stun.Network.{Packet, Receives}
use p2p_ps_stun.Network.Predicting.{
  World, IsWorld, Client, second, active, ended, Sends, Answers, posted, Act, begins,
  first_acknowledged, second_acknowledged, hears, hears_and_fails, hears_nothing, Network, start,
  Step, first_acts, second_acts, serves, Reach, started, later,
}
use p2p_ps_stun.Network.Predicting.Guidance.{
  IsGuided, IsOnCourse, still, over, round-IsOnCourse, greet_first-down, greet_second-down,
  down-IsGuided,
}
use p2p_ps_stun.Network.Predicting.Truth.{
  Fine, request, reply_a, reply_b, talk_a, talk_b, acknowledgement, mirror, Fine-mirror,
  Fine-IsTrue, Talks-Fine, Asks-Fine, Answers-Fine, All-Mem,
}
use p2p_ps_stun.Network.Predicting.Serving.{
  IsClient, Between, Between-mirror, on_message-Between, on_message-Fine,
}

-- A client in its loop is guided to the peer's host, and has posted what it sent.
pub record IsRunning (peer : ℕ) (l : Loop) : Type 0 where
  pub outbox : l.sent ≡ []
  pub guided : IsGuided peer l

abbrev pub IsSound : ℕ → Client → Type 0
IsSound peer (active l) = IsRunning peer l
IsSound peer (second m l) = l.connection_established ≡ false
IsSound peer _ = Unit

pub record Inv (w : World) (n : Network) : Type 0 where
  pub fine : All (Fine w) n.sent
  pub first : IsSound w.b.host n.first
  pub second : IsSound w.a.host n.second
  pub between : Between w n.server

IsWorld-mirror : (w : World) → IsWorld w → IsWorld (mirror w)
IsWorld-mirror w v = record {
  a_known = v.b_known;
  b_known = v.a_known;
  apart = λ e. v.apart (sym e);
}

never_both : {b : Bool} → b ≡ false → b ≡ true → ⊥
never_both h e = ground arith

-- What the server is given.
given-told :
    (w : World) (p : Packet) (e : Datagram)
    → Receives e p
    → Fine w p
    → (e.msg.type ≡ MessageType.ps_bind_request → IsClient w e.peer_addr.addr)
      × (e.msg.type ≢ MessageType.bind_request)
given-told w p e r (request t (inl g)) =
    (λ h. inl (ap (λ a. a.addr) r.given_by ∙ g), λ h. ground arith)
given-told w p e r (request t (inr g)) =
    (λ h. inr (ap (λ a. a.addr) r.given_by ∙ g), λ h. ground arith)
given-told w p e r (reply_a t g m) = (λ h. ground arith, λ h. ground arith)
given-told w p e r (reply_b t g m) = (λ h. ground arith, λ h. ground arith)
given-told w p e r (talk_a t g m) = (λ h. ground arith, λ h. ground arith)
given-told w p e r (talk_b t g m) = (λ h. ground arith, λ h. ground arith)
given-told w p e r (acknowledgement t) = (λ h. ground arith, λ h. ground arith)

module _ (f d : Double) (w : World) (v : IsWorld w) where
  -- What a step of the first client keeps.
  record Kept (ps : List Packet) (k : Client) : Type 0 where
    fine : All (Fine w) ps
    sound : IsSound w.b.host k

  overheard :
      (a : After) {q : ConnectResult} {l' : Loop} {ps : List Packet}
      → IsOnCourse w.b.host a
      → a ≡ returns q l'
      → Sends w.a l'.sent ps
      → Kept ps ended
  overheard a {q} {l'} {ps} course e sends = go (subst (IsOnCourse w.b.host) e course)
    where
      go : IsOnCourse w.b.host (returns q l') → Kept ps ended
      go (over talks) = record { fine = Talks-Fine w sends talks; sound = tt }

  kept :
      (a : After) {l' : Loop} {ps : List Packet}
      → IsOnCourse w.b.host a
      → a ≡ goes_on l'
      → Sends w.a l'.sent ps
      → Kept ps (active (posted l'))
  kept a {l'} {ps} course e sends = go (subst (IsOnCourse w.b.host) e course)
    where
      go : IsOnCourse w.b.host (goes_on l') → Kept ps (active (posted l'))
      go (still guided talks) = record {
        fine = Talks-Fine w sends talks;
        sound = record { outbox = refl; guided = record { up = guided.up } };
      }

  Act-Kept :
      {sent ps : List Packet} {k k' : Client} {os : List Outgoing}
      → Act f d w.a w.a_config sent k k' os
      → Sends w.a os ps
      → All (Fine w) sent
      → IsSound w.b.host k
      → Kept ps k'
  unfolding make_message
  Act-Kept (begins s ports) sends fine g = record {
    fine = Asks-Fine w sends (refl, tt);
    sound = tt;
  }
  Act-Kept (first_acknowledged p r mem to h e) sends fine g = record {
    fine = Asks-Fine w sends (refl, tt);
    sound = greet_first-down d w.a_config _ _ r _ e;
  }
  Act-Kept (second_acknowledged {l} {l'} p r mem to same h e) Sends.nothing fine g = record {
    fine = tt;
    sound = record {
      outbox = refl;
      guided = down-IsGuided w.b.host (posted l') (greet_second-down d w.a_config r l l' g e);
    };
  }
  Act-Kept (hears {l} p r mem to h more e) sends fine g =
      kept _
        (round-IsOnCourse f d w.b.host w.a_config r l g.outbox more (λ _.
          Fine-IsTrue w p r.event.reception v.apart (w.a.to_host _ p to) h
            (All-Mem (Fine w) mem fine)))
        e sends
  Act-Kept (hears_and_fails {l} p r mem to h more e) sends fine g =
      overheard _
        (round-IsOnCourse f d w.b.host w.a_config r l g.outbox more (λ _.
          Fine-IsTrue w p r.event.reception v.apart (w.a.to_host _ p to) h
            (All-Mem (Fine w) mem fine)))
        e sends
  Act-Kept (hears_nothing {l} r quiet more e) sends fine g =
      kept _
        (round-IsOnCourse f d w.b.host w.a_config r l g.outbox more
          (λ h. absurd (never_both quiet h)))
        e sends

  first-Inv :
      (n : Network) (k : Client) {os : List Outgoing} {ps : List Packet}
      → Act f d w.a w.a_config n.sent n.first k os
      → Sends w.a os ps
      → Inv w n
      → Inv w (record n { first = k; sent = ps ++ n.sent })
  first-Inv n k {os} {ps} act sends i =
      let kept = Act-Kept act sends i.fine i.first in
      record {
        fine = All-append (Fine w) ps n.sent kept.fine i.fine;
        first = kept.sound;
        second = i.second;
        between = i.between;
      }

  serve-Inv :
      (n : Network) (p : Packet) (e : Datagram) {ps : List Packet}
      → Memᴰ p n.sent
      → Receives e p
      → Answers (on_message n.server e).1 ps
      → Inv w n
      → Inv w (record n { server = (on_message n.server e).0; sent = ps ++ n.sent })
  serve-Inv n p e {ps} mem r answers i =
      let told = given-told w p e r (All-Mem (Fine w) mem i.fine) in
      let sent = on_message-Fine w n.server e v i.between told.0 told.1 in
      record {
        fine = All-append (Fine w) ps n.sent (Answers-Fine w answers sent) i.fine;
        first = i.first;
        second = i.second;
        between = on_message-Between w n.server e v i.between told.0;
      }

Inv-start : (w : World) → Inv w start
unfolding find
Inv-start w = record { fine = tt; first = tt; second = tt; between = λ id. tt }

abbrev turned : Network → Network
turned n = record n { first = n.second; second = n.first }

Inv-mirror : (w : World) (n : Network) → Inv w n → Inv (mirror w) (turned n)
Inv-mirror w n i = record {
  fine = All-map (Fine w) (Fine (mirror w)) (Fine-mirror w) n.sent i.fine;
  first = i.second;
  second = i.first;
  between = Between-mirror w n.server i.between;
}

Step-Inv :
    (f d : Double) {w : World} {n m : Network} → IsWorld w → Step f d w n m → Inv w n → Inv w m
Step-Inv f d {w} {n} v (first_acts {k} act sends) i = first-Inv f d w v n k act sends i
Step-Inv f d {w} {n} v (second_acts {k} {os} {ps} act sends) i =
    Inv-mirror (mirror w) (record (turned n) { first = k; sent = ps ++ n.sent })
      (first-Inv f d (mirror w) (IsWorld-mirror w v) (turned n) k act sends (Inv-mirror w n i))
Step-Inv f d {w} {n} v (serves p e mem to r answers) i = serve-Inv f d w v n p e mem r answers i

pub Reach-Inv : (f d : Double) {w : World} {n : Network} → IsWorld w → Reach f d w n → Inv w n
Reach-Inv f d {w} v started = Inv-start w
Reach-Inv f d v (later r st) = Step-Inv f d v st (Reach-Inv f d v r)
