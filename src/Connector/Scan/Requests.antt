-- ===== src/Connector/Scan/Requests.antt =====
-- What the scan of p2p_ps_connector.h sends, and the ports that it uses.
use mathlib.Core.Bool.{true≢false}
use p2p_ps_stun.Prelude.{
  ℕ, zero, suc, ◌+◌, ◌^◌, ◌<◌, ◌≡◌, ◌≢◌, refl, ◌∙◌, ap, inl, inr, true, false, Bool-cases, List, [],
  ◌∷◌, ◌++◌, length, length-append, All, All-append, arith,
}
use p2p_ps_stun.Wire.{SockaddrIn, ntohl, transaction_id}
use p2p_ps_stun.Wire.Addressing.{id_round_trip}
use p2p_ps_stun.Wire.MessageType
use p2p_ps_stun.Double.{Double}
use p2p_ps_stun.Ports.{PortManager, assign_next_from_base}
use p2p_ps_stun.Ports.Scan.{scan}
use p2p_ps_stun.Socket.{init, bind_by_portman, set_target_address}
use p2p_ps_stun.Connector.Types.{Outgoing, make_message, try_connect_to_client}
use p2p_ps_stun.Connector.Scan.{ScanCall, open_one, open_scan}

-- A request to `addr` that names the transaction `id`.
abbrev pub Asks : ℕ → SockaddrIn → Outgoing → Type 0
Asks id addr o =
    (o.to ≡ addr)
    × (o.msg.type ≡ MessageType.client_bind_request)
    × (ntohl (transaction_id (o.msg.message)) ≡ id)

abbrev Requests : ℕ → ℕ → SockaddrIn → List Outgoing → Type 0
Requests n id addr os = (length os ≡ n) × All (Asks id addr) os

module _ (d : Double) where
  open_one-Requests :
      (id base_port : ℕ) (addr : SockaddrIn) (ports : PortManager) (c : ScanCall d)
      → id < 2 ^ 32
      → (open_one d id base_port addr ports c).1 ≡ true
      → Requests 1 id addr (open_one d id base_port addr ports c).3
  unfolding open_one try_connect_to_client make_message set_target_address init bind_by_portman
  open_one-Requests id base_port addr ports c h up =
      ground (arith, id_round_trip id (c.event.stack.message) h)

  one_more :
      (n id : ℕ) (addr : SockaddrIn) (xs ys : List Outgoing)
      → Requests 1 id addr xs
      → Requests n id addr ys
      → Requests (suc n) id addr (xs ++ ys)
  one_more n id addr xs ys h k =
      (omega (arith, length-append xs ys), All-append (Asks id addr) xs ys h.1 k.1)

  -- A scan whose sockets could all be opened sends one request for each, to the predicted address and
  -- with the own transaction id, if that fits 32 bits.
  pub open_scan-Requests :
      (id base_port : ℕ) (addr : SockaddrIn) (ports : PortManager) (calls : ℕ → ScanCall d)
      (i n : ℕ)
      → id < 2 ^ 32
      → (open_scan d id base_port addr ports calls i n).failed ≡ false
      → (length (open_scan d id base_port addr ports calls i n).sent ≡ n)
        × All (Asks id addr) (open_scan d id base_port addr ports calls i n).sent
  unfolding open_scan
  open_scan-Requests id base_port addr ports calls i zero h e = (refl, tt)
  open_scan-Requests id base_port addr ports calls i (suc n) h e =
      let one = open_one d id base_port addr ports (calls i) in
      elim (Bool-cases one.1) [
        | inl up ↦ rw up (
            one_more n id addr one.3 _ (open_one-Requests id base_port addr ports (calls i) h up)
              (open_scan-Requests id base_port addr one.2 calls (i + 1) n h (rw up at e)))
        | inr down ↦ absurd (true≢false (rw down at e))
      ]

  unfoldable pub bindings : (ℕ → ScanCall d) → ℕ → ℕ → List (ℕ × d.Number)
  bindings calls i zero = []
  bindings calls i (suc n) =
      ((calls i).binding.now, (calls i).binding.draw) ∷ bindings calls (i + 1) n

  open_one-ports :
      (id base_port : ℕ) (addr : SockaddrIn) (ports : PortManager) (c : ScanCall d)
      → base_port ≢ 0
      → (open_one d id base_port addr ports c).1 ≡ true
      → (open_one d id base_port addr ports c).2
        ≡ (assign_next_from_base d ports base_port c.binding.now c.binding.draw).0
  unfolding open_one init bind_by_portman
  open_one-ports id base_port addr ports c h up = ground arith

  -- A scan from a base port whose sockets could all be opened leaves the port manager as one call of
  -- `assign_next_from_base` for each socket, with its clock reading and draw, leaves it.
  pub open_scan-scan :
      (id base_port : ℕ) (addr : SockaddrIn) (ports : PortManager) (calls : ℕ → ScanCall d)
      (i n : ℕ)
      → base_port ≢ 0
      → (open_scan d id base_port addr ports calls i n).failed ≡ false
      → (open_scan d id base_port addr ports calls i n).ports
        ≡ (scan d ports base_port (bindings calls i n)).0
  unfolding open_scan scan bindings
  open_scan-scan id base_port addr ports calls i zero h e = refl
  open_scan-scan id base_port addr ports calls i (suc n) h e =
      let one = open_one d id base_port addr ports (calls i) in
      elim (Bool-cases one.1) [
        | inl up ↦ rw up (
            open_scan-scan id base_port addr one.2 calls (i + 1) n h (rw up at e)
            ∙ ap (λ p. (scan d p base_port (bindings calls (i + 1) n)).0)
                (open_one-ports id base_port addr ports (calls i) h up))
        | inr down ↦ absurd (true≢false (rw down at e))
      ]
