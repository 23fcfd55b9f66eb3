-- ===== src/Connector/Target/Drift.antt =====
-- What `determine_target_port` of p2p_ps_connector.h predicts.
use p2p_ps_stun.Prelude.{
  ℕ, ◌+◌, ◌-◌, ◌*◌, ◌/◌, ◌%◌, ◌^◌, ◌≤◌, ◌<◌, ◌≡◌, ◌≢◌, ◌∙◌, ap₂, ◌&&◌, ltb, lt→ltb, ne→==,
  if◌then◌else◌, arith,
}
use p2p_ps_stun.Double.{Double}
use p2p_ps_stun.Connector.Target.{u64, port_distance, time_parts, determine_target_port}

-- Arithmetic that is exact on the whole numbers up to 2^24, as IEEE single precision is.
pub record IsExact (f : Double) : Type 0 where
  pub add_of : (a b : ℕ) → a + b < 2 ^ 24 → f.add (f.of_ℕ a) (f.of_ℕ b) ≡ f.of_ℕ (a + b)
  pub mul_of : (a b : ℕ) → a * b < 2 ^ 24 → f.mul (f.of_ℕ a) (f.of_ℕ b) ≡ f.of_ℕ (a * b)
  pub div_of : (k b : ℕ) → 0 < b → k * b < 2 ^ 24 → f.div (f.of_ℕ (k * b)) (f.of_ℕ b) ≡ f.of_ℕ k
  pub to_u16_of : (n : ℕ) → n < 2 ^ 16 → f.to_u16 (f.of_ℕ n) ≡ n

-- The two times and the clock, in milliseconds and read without a wrap: the time since the second
-- one, with 100 ms more for the way, is `k` times the time between them, with 1 ms more. So `k` is the
-- quotient that the code computes.
pub record Elapsed (k t1 t2 time_now : ℕ) : Type 0 where
  pub ordered : t1 ≤ t2
  pub past : t2 ≤ time_now
  pub small : time_now + 100 < 2 ^ 64
  pub multiple : time_now - t2 + 100 ≡ k * (t2 - t1 + 1)
  pub exact : k * (t2 - t1 + 1) < 2 ^ 24

-- Two different ports are always at a positive distance, so that the branch for falling ports, which
-- subtracts half of the scan range, is never taken.
port_distance-pos :
    (first_port second_port : ℕ)
    → first_port < 2 ^ 16
    → second_port < 2 ^ 16
    → first_port ≢ second_port
    → 0 < port_distance first_port second_port
unfolding port_distance
port_distance-pos first_port second_port h k ne = omega arith

module _ (f : Double) where
  open f use {of_ℕ, add, mul, div, to_u16}

  -- For two different ports with 16 bits, rising or falling, the result is 0 if they are 250 or more
  -- apart, and otherwise the prediction for rising ports, from the distance modulo 2^16.
  pub determine_target_port-rising :
      (first_port second_port t1 t2 scan_range time_now : ℕ)
      → first_port < 2 ^ 16
      → second_port < 2 ^ 16
      → first_port ≢ second_port
      → determine_target_port f first_port second_port t1 t2 scan_range time_now ≡ (
          if ltb second_port (first_port + 250) && ltb first_port (second_port + 250)
          then to_u16 (
              add
                (add (of_ℕ second_port) (
                  mul
                    (time_parts f t1 t2 time_now)
                    (of_ℕ ((second_port + 2 ^ 16 - first_port) % 2 ^ 16))))
                (of_ℕ (scan_range / 2)))
          else 0)
  unfolding determine_target_port
  determine_target_port-rising first_port second_port t1 t2 scan_range time_now h k ne = rw (
    ne→== first_port second_port ne,
    lt→ltb 0 _ (unfold port_distance in port_distance-pos first_port second_port h k ne),
  )

  time_parts-eq :
      (k t1 t2 time_now : ℕ)
      → IsExact f
      → Elapsed k t1 t2 time_now
      → time_parts f t1 t2 time_now ≡ of_ℕ k
  unfolding time_parts
  time_parts-eq k t1 t2 time_now exact e =
      let interval : u64 (u64 (t2 + 2 ^ 64 - t1) + 1) ≡ t2 - t1 + 1 = omega (arith, e) in
      let waited : u64 (u64 (time_now + 2 ^ 64 - t2) + 100) ≡ k * (t2 - t1 + 1) =
        omega (arith, e) in
      ap₂ (λ w i. div (of_ℕ w) (of_ℕ i)) waited interval
      ∙ exact.div_of k (t2 - t1 + 1) (omega arith) e.exact

  -- The prediction for whole multiples: the second port, the drift and half of the scan range.
  prediction :
      (second_port distance k scan_range : ℕ)
      → IsExact f
      → second_port + k * distance + scan_range / 2 < 2 ^ 24
      → add (add (of_ℕ second_port) (mul (of_ℕ k) (of_ℕ distance))) (of_ℕ (scan_range / 2))
        ≡ of_ℕ (second_port + k * distance + scan_range / 2)
  prediction second_port distance k scan_range exact h =
      rw
        (
          exact.mul_of k distance (omega arith),
          exact.add_of second_port (k * distance) (omega arith),
        )
        (exact.add_of (second_port + k * distance) (scan_range / 2) h)

  -- With exact arithmetic, and when the time since the second of the server's sightings and 100 ms are
  -- `k` times the time between them and 1 ms, a peer whose ports rise by less than 250 is looked for `k` such rises, and half of the
  -- scan range, after its second port, if that is a port.
  pub rising_prediction :
      (first_port second_port k t1 t2 scan_range time_now : ℕ)
      → IsExact f
      → Elapsed k t1 t2 time_now
      → first_port < second_port
      → second_port < first_port + 250
      → second_port + k * (second_port - first_port) + scan_range / 2 < 2 ^ 16
      → determine_target_port f first_port second_port t1 t2 scan_range time_now
        ≡ second_port + k * (second_port - first_port) + scan_range / 2
  rising_prediction first_port second_port k t1 t2 scan_range time_now exact e up near fits =
      let distance : (second_port + 2 ^ 16 - first_port) % 2 ^ 16 ≡ second_port - first_port =
        omega arith in
      determine_target_port-rising first_port second_port t1 t2 scan_range time_now (omega arith)
        (omega arith) (omega arith)
      ∙ rw
          (
            lt→ltb second_port (first_port + 250) near,
            lt→ltb first_port (second_port + 250) (omega arith),
            distance,
            time_parts-eq k t1 t2 time_now exact e,
            prediction second_port (second_port - first_port) k scan_range exact (omega arith),
          )
          (exact.to_u16_of _ fits)

  -- With exact arithmetic, for a peer whose ports fall by less than 250, its second port at least half
  -- of its first, the distance is taken modulo 2^16. When the time since the second of the server's
  -- sightings and 100 ms are `k` times the time between them and 1 ms, `k` at least 1, the number that
  -- is converted to a port is the second port with `k` times 2^16 less the fall, and half of the scan
  -- range; if it is below 2^24, that number is still 2^16 or more.
  pub falling_prediction_overflows :
      (first_port second_port k t1 t2 scan_range time_now : ℕ)
      → IsExact f
      → Elapsed k t1 t2 time_now
      → 0 < k
      → first_port < 2 ^ 16
      → second_port < first_port
      → first_port < second_port + 250
      → first_port ≤ second_port + second_port
      → second_port + k * (second_port + 2 ^ 16 - first_port) + scan_range / 2 < 2 ^ 24
      → (determine_target_port f first_port second_port t1 t2 scan_range time_now
          ≡ to_u16 (of_ℕ (second_port + k * (second_port + 2 ^ 16 - first_port) + scan_range / 2)))
        × (2 ^ 16 ≤ second_port + k * (second_port + 2 ^ 16 - first_port) + scan_range / 2)
  falling_prediction_overflows first_port second_port k t1 t2 scan_range time_now exact e pos h down
        near low fits =
      let d = second_port + 2 ^ 16 - first_port in
      let distance : d % 2 ^ 16 ≡ d = omega arith in
      (
        determine_target_port-rising first_port second_port t1 t2 scan_range time_now (omega arith)
              (omega arith) (omega arith)
            ∙ rw (
              lt→ltb second_port (first_port + 250) (omega arith),
              lt→ltb first_port (second_port + 250) near,
              distance,
              time_parts-eq k t1 t2 time_now exact e,
              prediction second_port d k scan_range exact fits,
            ),
        grind arith,
      )
