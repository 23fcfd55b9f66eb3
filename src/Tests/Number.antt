-- ===== src/Tests/Number.antt =====
-- Whole numbers as the numbers of port_manager.h and p2p_ps_connector.h.
use native.Mathlib.Nat.{mul-div_cancel}
use p2p_ps_stun.Prelude.{ℕ, ◌+◌, ◌-◌, ◌*◌, ◌/◌, ◌%◌, ◌^◌, refl, ltb, arith}
use p2p_ps_stun.Double.{Double}
use p2p_ps_stun.Connector.Target.Drift.{IsExact}

abbrev pub whole : Double
whole = record {
  Number = ℕ;
  of_ℕ = λ n. n;
  half = 0;
  add = λ a b. a + b;
  sub = λ a b. a - b;
  mul = λ a b. a * b;
  div = λ a b. a / b;
  is_positive = λ a. ltb 0 a;
  to_u16 = λ a. a % 2 ^ 16;
  to_u16-lt = λ a. omega arith;
}

pub whole-IsExact : IsExact whole
whole-IsExact = record {
  add_of = λ a b h. refl;
  mul_of = λ a b h. refl;
  div_of = λ k b h g. mul-div_cancel k h;
  to_u16_of = λ n h. omega arith;
}
