-- ===== src/Clock/Order.antt =====
-- The readings of time_helper.h follow the clock.
use p2p_ps_stun.Prelude.{◌+◌, ◌^◌, ◌≤◌, ◌<◌, ◌≡◌, ◌⊎◌, arith}
use p2p_ps_stun.Clock.{Timeval, get_time_in_ms}

-- A `timeval` as `gettimeofday` fills it in, before the year 292 000 000.
pub record IsTime (t : Timeval) : Type 0 where
  pub less_than_a_second : t.tv_usec < 1000000
  pub small : t.tv_sec < 2 ^ 53

abbrev pub Earlier : Timeval → Timeval → Type 0
Earlier s t = (s.tv_sec < t.tv_sec) ⊎ ((s.tv_sec ≡ t.tv_sec) × (s.tv_usec ≤ t.tv_usec))

-- Readings do not run backwards while the system's clock does not, and 30 seconds of the clock are
-- 30000 of them.
pub get_time_in_ms-le :
    (s t : Timeval)
    → IsTime s
    → IsTime t
    → Earlier s t
    → (get_time_in_ms s ≤ get_time_in_ms t)
      × (get_time_in_ms (record s { tv_sec = s.tv_sec + 30 }) ≡ get_time_in_ms s + 30000)
unfolding get_time_in_ms
get_time_in_ms-le s t v w h = ground arith
