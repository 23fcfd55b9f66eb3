-- ===== src/Connector/Scan/Handles.antt =====
-- Which handles the scan of p2p_ps_connector.h closes.
use p2p_ps_stun.Prelude.{
  ℕ, ℤ, pos, negsuc, minus_one, is_zero, is_minus_one, ◌+◌, ◌*◌, ◌≡◌, ◌≢◌, ◌⊎◌, inl, inr, refl, ap,
  Bool, true, false, Bool-cases, Option, none, some, List, [], ◌∷◌, ◌++◌, ◌==◌, if◌then◌else◌,
  arith,
}
use p2p_ps_stun.Wire.{SockaddrIn}
use p2p_ps_stun.Double.{Double}
use p2p_ps_stun.Ports.{PortManager}
use p2p_ps_stun.Socket.{UdpSocket, closes}
use p2p_ps_stun.Connector.Types.{Outgoing}
use p2p_ps_stun.Connector.Scan.{
  Trial, Attempt, Opened, scan_range, closes_all, Split, behind, first_ready, give_up, swap_in,
  take_ready, open_scan, after_scan, try_scan,
}

abbrev pub same_handle : ℤ → ℤ → Bool
same_handle (pos a) (pos b) = a == b
same_handle (negsuc a) (negsuc b) = a == b
same_handle _ _ = false

-- How often a handle is closed.
abbrev pub times_closed : ℤ → List ℤ → ℕ
times_closed h [] = 0
times_closed h (k ∷ ks) = (if same_handle h k then 1 else 0) + times_closed h ks

times_closed-append :
    (h : ℤ) (ks js : List ℤ) → times_closed h (ks ++ js) ≡ times_closed h ks + times_closed h js
times_closed-append h [] js = omega arith
times_closed-append h (k ∷ ks) js = omega (arith, times_closed-append h ks js)

-- Two lists of sockets that differ in one place.
exchange :
    (h : ℤ) (before : List UdpSocket) (s t : UdpSocket) (after : List UdpSocket)
    → times_closed h (closes_all (before ++ t ∷ after)) + times_closed h (closes s)
      ≡ times_closed h (closes_all (before ++ s ∷ after)) + times_closed h (closes t)
unfolding closes_all
exchange h [] s t after = omega (
  arith,
  times_closed-append h (closes t) (closes_all after),
  times_closed-append h (closes s) (closes_all after),
)
exchange h (b ∷ before) s t after = omega (
  arith,
  exchange h before s t after,
  times_closed-append h (closes b) (closes_all (before ++ t ∷ after)),
  times_closed-append h (closes b) (closes_all (before ++ s ∷ after)),
)

abbrev Splits : (ℤ → Bool) → List UdpSocket → Option Split → Type 0
Splits is_set ss none = Unit
Splits is_set ss (some (before, s, after)) =
    (ss ≡ before ++ s ∷ after) × (is_set s.socket_handle ≡ true)

behind-Splits :
    (is_set : ℤ → Bool) (t : UdpSocket) (ss : List UdpSocket) (o : Option Split)
    → Splits is_set ss o
    → Splits is_set (t ∷ ss) (behind t o)
unfolding behind
behind-Splits is_set t ss none h = tt
behind-Splits is_set t ss (some (before, s, after)) h = (ap (λ l. t ∷ l) h.0, h.1)

first_ready-Splits :
    (is_set : ℤ → Bool) (ss : List UdpSocket) → Splits is_set ss (first_ready is_set ss)
unfolding first_ready
first_ready-Splits is_set [] = tt
first_ready-Splits is_set (t ∷ ss) = elim (Bool-cases (is_set t.socket_handle)) [
  | inl e ↦ rw e (refl, e)
  | inr e ↦ rw e (behind-Splits is_set t ss _ (first_ready-Splits is_set ss))
]

-- What an attempt leaves of the handles of the scan's sockets and of the caller's: with success, the
-- caller has a socket that is in the set, and its handle is closed once less than the scan's sockets
-- are, the caller's old handle twice; otherwise the caller keeps its socket, and all sockets of the
-- scan are closed.
abbrev pub Settles : (ℤ → Bool) → UdpSocket → List UdpSocket → Attempt → Type 0
Settles is_set in_socket ss a =
    ((a.success ≡ pos 1)
      × (is_set a.socket.socket_handle ≡ true)
      × ((h : ℤ)
          → times_closed h a.closed + times_closed h (closes a.socket)
            ≡ times_closed h (closes_all ss) + 2 * times_closed h (closes in_socket)))
    ⊎ ((a.success ≢ pos 1) × (a.socket ≡ in_socket) × (a.closed ≡ closes_all ss))

swap_in-Settles :
    (is_set : ℤ → Bool) (in_socket : UdpSocket) (ss : List UdpSocket) (ports : PortManager)
    (sent : List Outgoing) (o : Option Split)
    → Splits is_set ss o
    → Settles is_set in_socket ss (swap_in in_socket ss ports sent o)
unfolding swap_in
swap_in-Settles is_set in_socket ss ports sent none h = inr ((λ e. ground arith), refl, refl)
swap_in-Settles is_set in_socket ss ports sent (some (before, s, after)) h = inl (
  refl,
  h.1,
  λ k. omega (
    arith,
    times_closed-append k (closes in_socket) (closes_all (before ++ in_socket ∷ after)),
    exchange k before s in_socket after,
    ap (λ l. times_closed k (closes_all l)) h.0,
  ),
)

give_up-Settles :
    (is_set : ℤ → Bool) (r : ℤ) (in_socket : UdpSocket) (o : Opened)
    → r ≢ pos 1
    → Settles is_set in_socket o.sockets (give_up r in_socket o)
unfolding give_up
give_up-Settles is_set r in_socket o h = inr (h, refl, refl)

module _ (d : Double) where
  after_scan-Settles :
      (in_socket : UdpSocket) (t : Trial d) (o : Opened)
      → Settles t.is_set in_socket o.sockets (after_scan d in_socket t o)
  unfolding after_scan take_ready give_up
  after_scan-Settles in_socket t o =
      let zero_result = give_up-Settles t.is_set (pos 0) in_socket o (λ e. ground arith) in
      elim (Bool-cases o.failed) [
        | inl e ↦ rw e (give_up-Settles t.is_set minus_one in_socket o (λ e. ground arith))
        | inr e ↦ rw e (elim (Bool-cases (is_zero t.select_result)) [
          | inl g ↦ rw g zero_result
          | inr g ↦ rw g (elim (Bool-cases (is_minus_one t.select_result)) [
            | inl k ↦ rw k zero_result
            | inr k ↦ rw k (
                swap_in-Settles t.is_set in_socket o.sockets o.ports o.sent _
                  (first_ready-Splits t.is_set o.sockets))
          ])
        ])
      ]

  -- However a scan ends and whatever the system calls return: with success the caller has a socket
  -- that `select` left in the set, every handle is closed once for each socket of the scan that has
  -- it, except for the caller's new socket, and twice more for the caller's old socket; without
  -- success the caller keeps its socket and exactly the sockets of the scan are closed.
  pub try_scan-Settles :
      (id base_port : ℕ) (addr : SockaddrIn) (in_socket : UdpSocket) (ports : PortManager)
      (t : Trial d)
      → Settles t.is_set in_socket
          (open_scan d id base_port addr ports t.calls 0 scan_range).sockets
          (try_scan d id base_port addr in_socket ports t)
  unfolding try_scan
  try_scan-Settles id base_port addr in_socket ports t =
      after_scan-Settles in_socket t (open_scan d id base_port addr ports t.calls 0 scan_range)
