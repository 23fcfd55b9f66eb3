-- ===== src/Network/Truth.antt =====
-- The packets that two clients of p2p_connector.h and the server exchange.
use p2p_ps_stun.Prelude.{
  ℕ, ◌≡◌, ◌≢◌, ◌⊎◌, ◌∙◌, inl, inr, refl, sym, true, false, ◌&&◌, List, [], ◌∷◌, map, ◌==◌, ==_refl,
  if◌then◌else◌, All, total, arith,
}
use p2p_ps_stun.Wire.{SockaddrIn, bind_reply}
use p2p_ps_stun.Wire.MessageType
use p2p_ps_stun.Socket.{Reception}
use p2p_ps_stun.Connector.Types.{Outgoing}
use p2p_ps_stun.Connector.Basic.{is_from}
use p2p_ps_stun.Network.{Packet, World, packet, Hears}
use p2p_ps_stun.Network.Guidance.{Calls, IsTrue}

-- What each packet under way is.
pub data Fine (w : World) (p : Packet) : Type 0 where
  request : p.msg.type ≡ MessageType.bind_request → (p.from ≡ w.a) ⊎ (p.from ≡ w.b) → Fine w p
  reply_a :
      p.msg.type ≡ MessageType.bind_reply → p.to ≡ w.a → bind_reply (p.msg.message) ≡ w.b → Fine w p
  reply_b :
      p.msg.type ≡ MessageType.bind_reply → p.to ≡ w.b → bind_reply (p.msg.message) ≡ w.a → Fine w p
  call_a :
      (p.msg.type ≡ MessageType.client_bind_request)
        ⊎ (p.msg.type ≡ MessageType.client_bind_response)
      → p.from ≡ w.a
      → p.to ≡ w.b
      → Fine w p
  call_b :
      (p.msg.type ≡ MessageType.client_bind_request)
        ⊎ (p.msg.type ≡ MessageType.client_bind_response)
      → p.from ≡ w.b
      → p.to ≡ w.a
      → Fine w p
  acknowledgement : p.msg.type ≡ MessageType.ack → Fine w p

-- The world as the second client sees it.
abbrev pub mirror : World → World
mirror w = record {
  a = w.b;
  b = w.a;
  server = w.server;
  a_config = w.b_config;
  b_config = w.a_config;
}

pub Fine-mirror : (w : World) (p : Packet) → Fine w p → Fine (mirror w) p
Fine-mirror w p (request t (inl f)) = request t (inr f)
Fine-mirror w p (request t (inr f)) = request t (inl f)
Fine-mirror w p (reply_a t f m) = reply_b t f m
Fine-mirror w p (reply_b t f m) = reply_a t f m
Fine-mirror w p (call_a t f g) = call_b t f g
Fine-mirror w p (call_b t f g) = call_a t f g
Fine-mirror w p (acknowledgement t) = acknowledgement t

pub not_same : (a b : SockaddrIn) → is_from a b ≡ false → a ≢ b
not_same a b h e = ground arith

-- A packet to the first client tells the truth about the second.
pub Fine-IsTrue :
    (w : World) (p : Packet) (r : Reception)
    → is_from w.a w.b ≡ false
    → p.to ≡ w.a
    → Hears r p
    → Fine w p
    → IsTrue w.b r
Fine-IsTrue w p r apart e h (request t f) = ground arith
Fine-IsTrue w p r apart e h (reply_a t f m) = ground arith
Fine-IsTrue w p r apart e h (reply_b t f m) = absurd (not_same w.a w.b apart (sym e ∙ f))
Fine-IsTrue w p r apart e h (call_a t f g) = absurd (not_same w.a w.b apart (sym e ∙ g))
Fine-IsTrue w p r apart e h (call_b t f g) = ground arith
Fine-IsTrue w p r apart e h (acknowledgement t) = ground arith

pub calls-Fine :
    (w : World) (os : List Outgoing) → All (Calls w.b) os → All (Fine w) (map (packet w.a) os)
calls-Fine w [] h = tt
calls-Fine w (o ∷ os) h = (call_a h.0.kind refl h.0.address, calls-Fine w os h.1)

-- 1 for a bind_request from `x`.
abbrev pub asks : SockaddrIn → Packet → ℕ
asks x p = if p.msg.type == MessageType.bind_request && is_from p.from x then 1 else 0

pub calls-ask :
    (x y peer : SockaddrIn) (os : List Outgoing)
    → All (Calls peer) os
    → total (asks x) (map (packet y) os) ≡ 0
unfolding total
calls-ask x y peer [] h = refl
calls-ask x y peer (o ∷ os) h = ground (arith, calls-ask x y peer os h.1)

pub is_from_refl : (x : SockaddrIn) → is_from x x ≡ true
is_from_refl x = rw (==_refl x.addr, ==_refl x.port)

pub is_from_sym : (x y : SockaddrIn) → is_from x y ≡ false → is_from y x ≡ false
is_from_sym x y h = ground arith
