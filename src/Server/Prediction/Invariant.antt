-- ===== src/Server/Prediction/Invariant.antt =====
-- What every stored `ps_transaction_t` satisfies, and that `ps_bind_request` keeps it
-- (udp_p2p_server.h).
use p2p_ps_stun.Prelude.{ℕ, ◌≡◌, ◌≢◌, ◌⊎◌, arith}
use p2p_ps_stun.Wire.{SockaddrIn}
use p2p_ps_stun.Server.Types.{PsTransaction, new_transaction}
use p2p_ps_stun.Server.Prediction.{Update, waiting, complete, update}

-- The first client is known. Each client has one host, its second address comes after its first,
-- and the two clients have different hosts.
pub record IsWellFormed (tr : PsTransaction) : Type 0 where
  pub first_known : tr.cl1_sk1.addr ≢ 0
  pub first_host : (tr.cl1_sk2.addr ≡ 0) ⊎ (tr.cl1_sk2.addr ≡ tr.cl1_sk1.addr)
  pub second_host : (tr.cl2_sk2.addr ≡ 0) ⊎ (tr.cl2_sk2.addr ≡ tr.cl2_sk1.addr)
  pub distinct : tr.cl2_sk1.addr ≢ tr.cl1_sk1.addr

-- A transaction that the handler replies to: both addresses of both clients are known.
pub record IsMatched (tr : PsTransaction) : Type 0 where
  pub well_formed : IsWellFormed tr
  pub first_complete : tr.cl1_sk2.addr ≡ tr.cl1_sk1.addr
  pub second_known : tr.cl2_sk1.addr ≢ 0
  pub second_complete : tr.cl2_sk2.addr ≡ tr.cl2_sk1.addr

abbrev pub IsFine : Update → Type 0
IsFine (waiting tr) = IsWellFormed tr
IsFine (complete tr) = IsMatched tr

pub new_transaction-IsWellFormed :
    (a : SockaddrIn) (t : ℕ) → a.addr ≢ 0 → IsWellFormed (new_transaction a t)
unfolding new_transaction
new_transaction-IsWellFormed a t h = ground arith

pub update-IsFine :
    (tr : PsTransaction) (peer_addr : SockaddrIn) (check_time stamp_time : ℕ)
    → peer_addr.addr ≢ 0
    → IsWellFormed tr
    → IsFine (update tr peer_addr check_time stamp_time)
unfolding update
update-IsFine tr peer_addr check_time stamp_time h v = ground arith
