-- ===== src/Server/Prediction/Phases.antt =====
-- How far a transaction of `ps_bind_request` is (udp_p2p_server.h): an automaton that forgets the
-- addresses and the times, and that the handler implements.
use p2p_ps_stun.Prelude.{ℕ, ◌≡◌, ◌≢◌, ◌==◌, if◌then◌else◌, arith}
use p2p_ps_stun.Wire.{SockaddrIn}
use p2p_ps_stun.Server.Types.{PsTransaction}
use p2p_ps_stun.Server.Prediction.{Update, waiting, complete, update, is_expired}
use p2p_ps_stun.Server.Prediction.Invariant.{IsWellFormed}

-- How many addresses of a client are known.
pub data Known : Type 0 where
  unknown one both : Known

pub record Phase : Type 0 where
  pub first : Known
  pub second : Known

pub data Event : Type 0 where
  expired from_first from_second from_stranger : Event

pub data Advance : Type 0 where
  goes_to : Phase → Advance
  done : Advance

next_address : Known → Known
next_address unknown = one
next_address _ = both

finish : Phase → Advance
finish p = elim p.first [ both ↦ elim p.second [ both ↦ done | _ ↦ goes_to p ] | _ ↦ goes_to p ]

-- The automaton: only a packet that is not the first client's can finish the transaction.
unfoldable pub advance : Event → Phase → Advance
unfolding next_address finish
advance expired p = goes_to (record { first = one; second = unknown })
advance from_first p = goes_to (record p { first = both })
advance from_second p = finish (record p { second = next_address p.second })
advance from_stranger p = finish p

known : SockaddrIn → SockaddrIn → Known
known a b = if a.addr == 0 then unknown else if b.addr == 0 then one else both

unfoldable pub phase : PsTransaction → Phase
unfolding known
phase tr = record { first = known tr.cl1_sk1 tr.cl1_sk2; second = known tr.cl2_sk1 tr.cl2_sk2 }

unfoldable pub classify : PsTransaction → SockaddrIn → ℕ → Event
classify tr peer_addr now =
    if is_expired tr now
    then expired
    else if tr.cl1_sk1.addr == peer_addr.addr
    then from_first
    else if tr.cl2_sk1.addr == 0
    then from_second
    else if tr.cl2_sk1.addr == peer_addr.addr
    then from_second
    else from_stranger

unfoldable pub view : Update → Advance
view (waiting tr) = goes_to (phase tr)
view (complete tr) = done

-- What the handler does with a well-formed transaction and a packet from a host with an address, seen
-- through `view` and `phase`, is the step that `advance` takes in the automaton of a meeting.
pub update_refines :
    (tr : PsTransaction) (peer_addr : SockaddrIn) (check_time stamp_time : ℕ)
    → peer_addr.addr ≢ 0
    → IsWellFormed tr
    → view (update tr peer_addr check_time stamp_time)
      ≡ advance (classify tr peer_addr check_time) (phase tr)
unfolding update view advance classify phase
update_refines tr peer_addr check_time stamp_time h v = ground arith
