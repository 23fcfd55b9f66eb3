-- ===== src/Network/Serving.antt =====
-- The server of udp_p2p_server.h among two clients of p2p_connector.h.
use p2p_ps_stun.Prelude.{
  ℕ, ◌+◌, ◌≤◌, ◌≡◌, ◌⊎◌, ◌∙◌, inl, inr, refl, ap, false, Option, none, some, List, [], map,
  if◌then◌else◌, All, All-map, total, arith,
}
use p2p_ps_stun.Wire.{SockaddrIn}
use p2p_ps_stun.Wire.MessageType
use p2p_ps_stun.Server.Types.{Server, Sent, Datagram}
use p2p_ps_stun.Server.Relay.{on_bind_request}
use p2p_ps_stun.Server.Relay.Pairing.{waiting_client, first_waits, second_pairs}
use p2p_ps_stun.Server.Loop.{on_message}
use p2p_ps_stun.Connector.Basic.{is_from}
use p2p_ps_stun.Network.{World, Packet, Receives, answer}
use p2p_ps_stun.Network.Truth.{
  Fine, request, reply_a, reply_b, call_a, call_b, acknowledgement, mirror, Fine-mirror, asks,
  is_from_refl, is_from_sym,
}

-- 1 if the client that waits at the server is `x`.
abbrev pub same_client : SockaddrIn → Option SockaddrIn → ℕ
same_client x none = 0
same_client x (some y) = if is_from y x then 1 else 0

abbrev pub waits_as : SockaddrIn → Server → ℕ
waits_as x s = same_client x (waiting_client s)

-- Nobody waits, or one of the two clients.
abbrev pub Known : World → Server → Type 0
Known w s =
    (waiting_client s ≡ none) ⊎ ((waiting_client s ≡ some w.a) ⊎ (waiting_client s ≡ some w.b))

-- What the server does with a packet: it sends the truth, and no client's request is counted twice.
pub record Served (w : World) (s : Server) (p : Packet) (r : Server × List Sent) : Type 0 where
  pub answers : All (Fine w) (map (answer w.server) r.1)
  pub unasked : (x : SockaddrIn) → total (asks x) (map (answer w.server) r.1) ≡ 0
  pub once_a : waits_as w.a r.0 ≤ waits_as w.a s + asks w.a p
  pub once_b : waits_as w.b r.0 ≤ waits_as w.b s + asks w.b p
  pub known : Known w r.0

ignored :
    (s : Server) (d : Datagram)
    → (d.msg.type ≡ MessageType.bind_reply)
      ⊎ (((d.msg.type ≡ MessageType.client_bind_request)
            ⊎ (d.msg.type ≡ MessageType.client_bind_response))
          ⊎ (d.msg.type ≡ MessageType.ack))
    → on_message s d ≡ (s, [])
unfolding on_message
ignored s d h = ground arith

ignored-Served : (w : World) (s : Server) (p : Packet) → Known w s → Served w s p (s, [])
unfolding total
ignored-Served w s p k = record {
  answers = tt;
  unasked = λ x. refl;
  once_a = omega arith;
  once_b = omega arith;
  known = k;
}

pub asked :
    (s : Server) (d : Datagram)
    → d.msg.type ≡ MessageType.bind_request
    → on_message s d ≡ on_bind_request s d
unfolding on_message
asked s d h = ground arith

module _ (w : World) (s : Server) (p : Packet) (d : Datagram)
    (kind : p.msg.type ≡ MessageType.bind_request) (asker : d.peer_addr ≡ w.a) (from : p.from ≡ w.a)
    (apart : is_from w.a w.b ≡ false) where
  asks_once : asks w.a p ≡ 1
  asks_once = rw (kind, from, is_from_refl w.a)

  -- The first client asks, and nobody waits.
  first-Served : waiting_client s ≡ none → Served w s p (on_bind_request s d)
  unfolding total
  first-Served e =
      let (sent, next) = first_waits s d e in
      let waits : waiting_client (on_bind_request s d).0 ≡ some w.a = next ∙ ap some asker in
      record {
        answers = rw sent (acknowledgement refl, tt);
        unasked = λ x. rw sent;
        once_a = rw (waits, is_from_refl w.a) (omega (arith, asks_once));
        once_b = rw (waits, apart) (omega arith);
        known = inr (inl waits);
      }

  -- The first client asks, and the second waits.
  pair-Served : waiting_client s ≡ some w.b → Served w s p (on_bind_request s d)
  unfolding total
  pair-Served e =
      let (sent, next) = second_pairs s d w.b e in
      record {
        answers =
            rw sent
              (acknowledgement refl, (reply_a refl asker refl, (reply_b refl refl asker, tt)));
        unasked = λ x. rw sent;
        once_a = rw next (omega arith);
        once_b = rw next (omega arith);
        known = inl next;
      }

  asked-Served : Known w s → waits_as w.a s + asks w.a p ≤ 1 → Served w s p (on_bind_request s d)
  asked-Served (inl e) once = first-Served e
  asked-Served (inr (inl e)) once =
      let two : waits_as w.a s ≡ 1 = rw (e, is_from_refl w.a) in absurd (omega (arith, asks_once))
  asked-Served (inr (inr e)) once = pair-Served e

pub Known-mirror : (w : World) (s : Server) → Known w s → Known (mirror w) s
Known-mirror w s (inl e) = inl e
Known-mirror w s (inr (inl e)) = inr (inr e)
Known-mirror w s (inr (inr e)) = inr (inl e)

Served-mirror :
    (w : World) (s : Server) (p : Packet) (r : Server × List Sent)
    → Served (mirror w) s p r
    → Served w s p r
Served-mirror w s p r v = record {
  answers =
      All-map (Fine (mirror w)) (Fine w) (Fine-mirror (mirror w)) (map (answer w.server) r.1)
        v.answers;
  unasked = v.unasked;
  once_a = v.once_b;
  once_b = v.once_a;
  known = Known-mirror (mirror w) r.0 v.known;
}

pub serve-Served :
    (w : World) (s : Server) (p : Packet) (d : Datagram)
    → is_from w.a w.b ≡ false
    → Fine w p
    → Receives d p
    → Known w s
    → waits_as w.a s + asks w.a p ≤ 1
    → waits_as w.b s + asks w.b p ≤ 1
    → Served w s p (on_message s d)
serve-Served w s p d apart (request t (inl f)) r k a b =
    let e = asked s d (ap (λ m. m.type) r.given ∙ t) in
    rw e (asked-Served w s p d t (r.given_by ∙ f) f apart k a)
serve-Served w s p d apart (request t (inr f)) r k a b =
    let e = asked s d (ap (λ m. m.type) r.given ∙ t) in
    rw e (
      Served-mirror w s p (on_bind_request s d) (
        asked-Served (mirror w) s p d t (r.given_by ∙ f) f (is_from_sym w.a w.b apart)
          (Known-mirror w s k) b))
serve-Served w s p d apart (reply_a t f m) r k a b =
    rw (ignored s d (inl (ap (λ m. m.type) r.given ∙ t))) (ignored-Served w s p k)
serve-Served w s p d apart (reply_b t f m) r k a b =
    rw (ignored s d (inl (ap (λ m. m.type) r.given ∙ t))) (ignored-Served w s p k)
serve-Served w s p d apart (call_a t f m) r k a b =
    rw (ignored s d (ground arith)) (ignored-Served w s p k)
serve-Served w s p d apart (call_b t f m) r k a b =
    rw (ignored s d (ground arith)) (ignored-Served w s p k)
serve-Served w s p d apart (acknowledgement t) r k a b =
    rw (ignored s d (ground arith)) (ignored-Served w s p k)
