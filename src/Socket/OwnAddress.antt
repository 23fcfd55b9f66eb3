-- ===== src/Socket/OwnAddress.antt =====
-- `get_own_address` of udp_socket.h.
use p2p_ps_stun.Prelude.{
  ◌≡◌, ◌⊎◌, inl, inr, true, false, not, ◌||◌, Bool-cases, List, [], ◌∷◌, ◌==◌, ==_iff, arith,
}
use p2p_ps_stun.Wire.{SockaddrIn, af_inet}
use p2p_ps_stun.Socket.{UdpSocket, Interface, refresh_own_ipv4, get_own_address}

-- An interface whose address the socket may take for its own.
pub record IsUsable (i : Interface) : Type 0 where
  pub addressed : i.has_address ≡ true
  pub running : i.is_running ≡ true
  pub outward : i.is_loopback ≡ false
  pub ipv4 : i.address.family ≡ af_inet

-- The first usable interface of the list has this address, or there is none.
pub data FirstUsable : List Interface → SockaddrIn → SockaddrIn → Type 0 where
  nothing : {own : SockaddrIn} → FirstUsable [] own own
  found :
      {i : Interface} {is : List Interface} {own : SockaddrIn}
      → IsUsable i
      → FirstUsable (i ∷ is) own i.address
  skip :
      {i : Interface} {is : List Interface} {own a : SockaddrIn}
      → ¬ IsUsable i
      → FirstUsable is own a
      → FirstUsable (i ∷ is) own a

IsUsable-intro :
    (i : Interface)
    → (not i.has_address || not i.is_running || i.is_loopback) ≡ false
    → (i.address.family == af_inet) ≡ true
    → IsUsable i
IsUsable-intro i h k = ground arith

not-IsUsable_skipped :
    (i : Interface) → (not i.has_address || not i.is_running || i.is_loopback) ≡ true → ¬ IsUsable i
not-IsUsable_skipped i h u = ground arith

not-IsUsable_family : (i : Interface) → (i.address.family == af_inet) ≡ false → ¬ IsUsable i
not-IsUsable_family i h u = ground arith

refresh-FirstUsable :
    (is : List Interface) (own : SockaddrIn) → FirstUsable is own (refresh_own_ipv4 is own)
unfolding refresh_own_ipv4
refresh-FirstUsable [] own = nothing
refresh-FirstUsable (i ∷ is) own =
    let rest = refresh-FirstUsable is own in
    elim (Bool-cases (not i.has_address || not i.is_running || i.is_loopback)) [
      | inl e ↦ rw e (skip (not-IsUsable_skipped i e) rest)
      | inr e ↦ rw e (elim (Bool-cases (i.address.family == af_inet)) [
        | inl h ↦ rw h (found (IsUsable-intro i e h))
        | inr h ↦ rw h (skip (not-IsUsable_family i h) rest)
      ])
    ]

-- A socket with no own address yet takes that of the first interface that has an IPv4 address, runs
-- and is no loopback, or stays without one if there is none; a socket that has an address keeps it,
-- whatever the interfaces are then.
pub get_own_address-FirstUsable :
    (is later : List Interface) (s : UdpSocket)
    → s.own_address.addr ≡ 0
    → FirstUsable is s.own_address (get_own_address is s).1
      × (((get_own_address is s).1.addr ≡ 0)
          ⊎ ((get_own_address later (get_own_address is s).0).1 ≡ (get_own_address is s).1))
unfolding get_own_address
get_own_address-FirstUsable is later s h =
    (rw ((==_iff _ _).1 h) (refresh-FirstUsable is s.own_address), ground arith)
