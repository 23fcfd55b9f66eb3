-- ===== src/Clock.antt =====
-- `get_time_in_ms`, P2P_PS/sources/common/time_helper.h. What `gettimeofday` gives is an argument.
pub mod Order
use p2p_ps_stun.Prelude.{ℕ, ◌+◌, ◌*◌, ◌/◌, ◌%◌, ◌^◌}

-- `timeval`, for times since 1970.
pub record Timeval : Type 0 where
  pub tv_sec : ℕ
  pub tv_usec : ℕ

unfoldable pub get_time_in_ms : Timeval → ℕ
get_time_in_ms time_now = (time_now.tv_sec * 1000 + time_now.tv_usec / 1000) % 2 ^ 64
