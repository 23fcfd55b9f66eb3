-- ===== src/Network/Predicting/Truth.antt =====
-- The packets that two clients of p2p_ps_connector.h and the server exchange.
use mathlib.Core.List.{Memᴰ}
use p2p_ps_stun.Prelude.{◌≡◌, ◌≢◌, ◌⊎◌, ◌∙◌, ap, subst, inl, inr, sym, List, All, arith}
use p2p_ps_stun.Wire.MessageType
use p2p_ps_stun.Socket.{Reception}
use p2p_ps_stun.Connector.Types.{Outgoing}
use p2p_ps_stun.Server.Types.{Sent}
use p2p_ps_stun.Network.{Packet, Hears}
use p2p_ps_stun.Network.Predicting.{World, Sends, Answers}
use p2p_ps_stun.Network.Predicting.Guidance.{Talks, IsTrue}

-- What each packet that was sent is.
pub data Fine (w : World) (p : Packet) : Type 0 where
  request :
      p.msg.type ≡ MessageType.ps_bind_request
      → (p.from.addr ≡ w.a.host) ⊎ (p.from.addr ≡ w.b.host)
      → Fine w p
  reply_a :
      p.msg.type ≡ MessageType.ps_bind_reply
      → p.to.addr ≡ w.a.host
      → p.msg.message.addr_one.addr ≡ w.b.host
      → Fine w p
  reply_b :
      p.msg.type ≡ MessageType.ps_bind_reply
      → p.to.addr ≡ w.b.host
      → p.msg.message.addr_one.addr ≡ w.a.host
      → Fine w p
  talk_a :
      (p.msg.type ≡ MessageType.client_bind_request)
        ⊎ (p.msg.type ≡ MessageType.client_bind_response)
      → p.from.addr ≡ w.a.host
      → p.to.addr ≡ w.b.host
      → Fine w p
  talk_b :
      (p.msg.type ≡ MessageType.client_bind_request)
        ⊎ (p.msg.type ≡ MessageType.client_bind_response)
      → p.from.addr ≡ w.b.host
      → p.to.addr ≡ w.a.host
      → Fine w p
  acknowledgement : p.msg.type ≡ MessageType.ack → Fine w p

-- The world as the second client sees it.
abbrev pub mirror : World → World
mirror w = record w { a = w.b; b = w.a; a_config = w.b_config; b_config = w.a_config }

pub Fine-mirror : (w : World) (p : Packet) → Fine w p → Fine (mirror w) p
Fine-mirror w p (request t (inl f)) = request t (inr f)
Fine-mirror w p (request t (inr f)) = request t (inl f)
Fine-mirror w p (reply_a t f m) = reply_b t f m
Fine-mirror w p (reply_b t f m) = reply_a t f m
Fine-mirror w p (talk_a t f g) = talk_b t f g
Fine-mirror w p (talk_b t f g) = talk_a t f g
Fine-mirror w p (acknowledgement t) = acknowledgement t

-- A packet to the first client's host tells the truth about the second.
pub Fine-IsTrue :
    (w : World) (p : Packet) (r : Reception)
    → w.a.host ≢ w.b.host
    → p.to.addr ≡ w.a.host
    → Hears r p
    → Fine w p
    → IsTrue w.b.host r
Fine-IsTrue w p r apart e h (request t f) = ground arith
Fine-IsTrue w p r apart e h (reply_a t f m) = ground arith
Fine-IsTrue w p r apart e h (reply_b t f m) = absurd (apart (sym e ∙ f))
Fine-IsTrue w p r apart e h (talk_a t f g) = absurd (apart (sym e ∙ g))
Fine-IsTrue w p r apart e h (talk_b t f g) = ground arith
Fine-IsTrue w p r apart e h (acknowledgement t) = ground arith

-- What the first client sends in its loop.
pub Talks-Fine :
    (w : World) {os : List Outgoing} {ps : List Packet}
    → Sends w.a os ps
    → All (Talks w.b.host) os
    → All (Fine w) ps
Talks-Fine w Sends.nothing h = tt
Talks-Fine w (Sends.one_more {p} from to same rest) h = (
  talk_a (ground (arith, h.0.kind)) (w.a.from_host p.from from) (ap (λ a. a.addr) to ∙ h.0.host),
  Talks-Fine w rest h.1,
)

-- What it sends before.
abbrev pub Asks : Outgoing → Type 0
Asks o = o.msg.type ≡ MessageType.ps_bind_request

pub Asks-Fine :
    (w : World) {os : List Outgoing} {ps : List Packet}
    → Sends w.a os ps
    → All Asks os
    → All (Fine w) ps
Asks-Fine w Sends.nothing h = tt
Asks-Fine w (Sends.one_more {p} from to same rest) h =
    (request (ap (λ m. m.type) same ∙ h.0) (inl (w.a.from_host p.from from)), Asks-Fine w rest h.1)

-- What the server may send.
pub data FineSent (w : World) (m : Sent) : Type 0 where
  to_first :
      m.msg.type ≡ MessageType.ps_bind_reply
      → m.to.addr ≡ w.a.host
      → m.msg.message.addr_one.addr ≡ w.b.host
      → FineSent w m
  to_second :
      m.msg.type ≡ MessageType.ps_bind_reply
      → m.to.addr ≡ w.b.host
      → m.msg.message.addr_one.addr ≡ w.a.host
      → FineSent w m
  acknowledges : m.msg.type ≡ MessageType.ack → FineSent w m

FineSent-Fine :
    (w : World) (m : Sent) (p : Packet) → p.to ≡ m.to → p.msg ≡ m.msg → FineSent w m → Fine w p
FineSent-Fine w m p to same (to_first t f h) =
    reply_a (ap (λ x. x.type) same ∙ t) (ap (λ a. a.addr) to ∙ f)
      (ap (λ x. x.message.addr_one.addr) same ∙ h)
FineSent-Fine w m p to same (to_second t f h) =
    reply_b (ap (λ x. x.type) same ∙ t) (ap (λ a. a.addr) to ∙ f)
      (ap (λ x. x.message.addr_one.addr) same ∙ h)
FineSent-Fine w m p to same (acknowledges t) = acknowledgement (ap (λ x. x.type) same ∙ t)

pub Answers-Fine :
    (w : World) {ms : List Sent} {ps : List Packet}
    → Answers ms ps
    → All (FineSent w) ms
    → All (Fine w) ps
Answers-Fine w Answers.nothing h = tt
Answers-Fine w (Answers.one_more {m} {ms} {p} {ps} to same rest) h =
    (FineSent-Fine w m p to same h.0, Answers-Fine w rest h.1)

pub All-Mem {ℓ κ} : {A : Type ℓ} (P : A → Type κ) {a : A} {xs : List A} → Memᴰ a xs → All P xs → P a
All-Mem P (Memᴰ.head e) h = subst P (sym e) h.0
All-Mem P (Memᴰ.tail m) h = All-Mem P m h.1
