-- ===== src/Server/Prediction/Clock.antt =====
-- The times in the transactions of `ps_bind_request` (udp_p2p_server.h).
use p2p_ps_stun.Prelude.{ℕ, ◌+◌, ◌≡◌, ◌⊎◌, ◌≤◌, arith}
use p2p_ps_stun.Wire.{SockaddrIn}
use p2p_ps_stun.Server.Types.{PsTransaction}
use p2p_ps_stun.Server.Prediction.{Update, waiting, complete, update, expiry}
use p2p_ps_stun.Server.Prediction.Invariant.{IsWellFormed}

-- The times are not after `now`, and each client's second address is not older than its first.
pub record IsTimed (now : ℕ) (tr : PsTransaction) : Type 0 where
  pub first_past : tr.cl1_ts1 ≤ now
  pub second_past : tr.cl2_ts1 ≤ now
  pub first_order : (tr.cl1_sk2.addr ≡ 0) ⊎ (tr.cl1_ts1 ≤ tr.cl1_ts2)
  pub second_order : (tr.cl2_sk2.addr ≡ 0) ⊎ (tr.cl2_ts1 ≤ tr.cl2_ts2)

abbrev pub TimedUpdate : ℕ → ℕ → Update → Type 0
TimedUpdate check_time stamp_time (waiting tr) = IsTimed stamp_time tr
TimedUpdate check_time stamp_time (complete tr) =
    (tr.cl1_ts1 ≤ tr.cl1_ts2) × (tr.cl2_ts1 ≤ tr.cl2_ts2) × (check_time ≤ tr.cl1_ts1 + expiry)

-- Under a clock that does not run backwards, a step of a well-formed transaction keeps its times in
-- order; and if the step completes it, both T1 ≤ T2 that are sent hold, and the first address is at
-- most 30 seconds old.
pub update-IsTimed :
    (tr : PsTransaction) (peer_addr : SockaddrIn) (now check_time stamp_time : ℕ)
    → now ≤ check_time
    → check_time ≤ stamp_time
    → IsWellFormed tr
    → IsTimed now tr
    → TimedUpdate check_time stamp_time (update tr peer_addr check_time stamp_time)
unfolding update
update-IsTimed tr peer_addr now check_time stamp_time h k v w = ground arith
