-- ===== src/Tests/Predictions.antt =====
-- Predicted ports of p2p_ps_connector.h.
use p2p_ps_stun.Prelude.{◌^◌, ◌≤◌, ◌≡◌, arith}
use p2p_ps_stun.Connector.Target.{determine_target_port}
use p2p_ps_stun.Connector.Target.Drift.{Elapsed, falling_prediction_overflows}
use p2p_ps_stun.Tests.Number.{whole, whole-IsExact}

two_seconds : Elapsed 2 1000 1999 3899
two_seconds = record {
  ordered = omega arith;
  past = omega arith;
  small = omega arith;
  multiple = omega arith;
  exact = omega arith;
}

falling_prediction_overflows_example :
    (determine_target_port whole 4010 4000 1000 1999 50 3899 ≡ whole.to_u16 (whole.of_ℕ 135077))
    × (2 ^ 16 ≤ 135077)
falling_prediction_overflows_example =
    falling_prediction_overflows whole 4010 4000 2 1000 1999 50 3899 whole-IsExact two_seconds
      (omega arith) (omega arith) (omega arith) (omega arith) (omega arith) (omega arith)
