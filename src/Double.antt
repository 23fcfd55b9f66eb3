-- ===== src/Double.antt =====
-- The floating-point numbers of port_manager.h and p2p_ps_connector.h: a type with the operations
-- that the code uses. `double` and `float` are two values of this record.
use p2p_ps_stun.Prelude.{ℕ, ◌^◌, ◌<◌, Bool}

pub record Double : Type 1 where
  pub Number : Type 0
  -- the conversion of an integer, exact or rounded
  pub of_ℕ : ℕ → Number
  pub half : Number
  pub add : Number → Number → Number
  pub sub : Number → Number → Number
  pub mul : Number → Number → Number
  pub div : Number → Number → Number
  pub is_positive : Number → Bool
  -- the conversion to `uint16_t`; the standard leaves it open outside that type's range
  pub to_u16 : Number → ℕ
  pub to_u16-lt : (x : Number) → to_u16 x < 2 ^ 16
