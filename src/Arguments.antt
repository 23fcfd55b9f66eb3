-- ===== src/Arguments.antt =====
-- `main` of P2P_PS/sources/client/src/main.cpp: which runner it starts with which arguments, and how
-- the runners set up the port manager. `inet_aton` and `std::stoi` are parameters.
pub mod Cases
pub mod Reading
use p2p_ps_stun.Prelude.{
  ℕ, ℤ, pos, negsuc, is_zero, ◌+◌, ◌-◌, ◌*◌, ◌%◌, ◌^◌, Bool, true, false, not, Option, none, some,
  List, [], ◌∷◌, length, ltb, ◌==◌, if◌then◌else◌, zero, suc,
}
use p2p_ps_stun.Wire.{Address, parse_ip}
use p2p_ps_stun.Ports.{
  PortManager, u16, set_simulated_allocs_per_second, set_reserved_port_range_per_alloc,
}

-- The bytes of an argument.
abbrev pub Text : Type 0
Text = List ℕ

-- The runner that is started.
pub data Job : Type 0 where
  normal : Address → Job
  statistical : Address → ℕ → Job
  normal_ps : Address → Address → Bool → ℕ → Job
  statistical_ps : Address → Address → Bool → ℕ → ℕ → Job

-- What `main` does: it returns a code after `usage`, or starts a runner; it reads beyond the
-- arguments, which is undefined; or `std::stoi` throws.
pub data Outcome : Type 0 where
  usage : ℕ → Outcome
  starts : Job → Outcome
  undefined : Outcome
  throws : Outcome

-- The conversion of an `int` to `w` bits.
abbrev pub to_word : ℕ → ℤ → ℕ
to_word w (pos n) = n % 2 ^ w
to_word w (negsuc n) = 2 ^ w - 1 - n % 2 ^ w

-- `strncmp(mode, arg, strlen(mode)) == 0`
unfoldable pub starts_with : Text → Text → Bool
starts_with [] arg = true
starts_with (c ∷ mode) [] = false
starts_with (c ∷ mode) (d ∷ arg) = let rest = starts_with mode arg in if c == d then rest else false

-- `argv[i]`
unfoldable pub get_elem? : List Text → ℕ → Option Text
get_elem? [] i = none
get_elem? (a ∷ argv) zero = some a
get_elem? (a ∷ argv) (suc i) = get_elem? argv i

unfoldable pub with_argument : List Text → ℕ → (Text → Outcome) → Outcome
with_argument argv i f = elim (get_elem? argv i) [ none ↦ undefined | some a ↦ f a ]

abbrev pub nr : Text
nr = 110 ∷ 114 ∷ []

abbrev pub snr : Text
snr = 115 ∷ 110 ∷ 114 ∷ []

abbrev pub ps : Text
ps = 112 ∷ 115 ∷ []

abbrev pub sps : Text
sps = 115 ∷ 112 ∷ 115 ∷ []

module _ (inet_aton : Text → Option ℕ) (stoi : Text → Option ℤ) where
  -- `std::stoi(argv[i])`
  unfoldable pub with_number : List Text → ℕ → (ℤ → Outcome) → Outcome
  unfolding with_argument
  with_number argv i f = with_argument argv i (λ a. elim (stoi a) [ none ↦ throws | some n ↦ f n ])

  -- The address in `argv[i]` and its port in `argv[i + 1]`.
  unfoldable pub with_address : List Text → ℕ → (Address → Outcome) → Outcome
  unfolding with_argument with_number
  with_address argv i f = with_argument argv i (λ a.
      if parse_ip inet_aton a == 0
      then usage 1
      else with_number argv (i + 1)
          (λ n. f (record { ip = parse_ip inet_aton a; port = to_word 16 n })))

  unfoldable pub snr_runs : List Text → Address → Outcome
  snr_runs argv a = with_number argv 4 (λ n. starts (statistical a (to_word 32 n)))

  unfoldable pub read_snr : List Text → Outcome
  unfolding with_address snr_runs
  read_snr argv = with_address argv 2 (snr_runs argv)

  unfoldable pub ps_allocs : List Text → Address → Address → Bool → Outcome
  ps_allocs argv a b sym =
      with_number argv 7 (λ sim. starts (normal_ps a b sym (u16 (to_word 32 sim))))

  unfoldable pub ps_flag : List Text → Address → Address → Outcome
  ps_flag argv a b = with_number argv 6 (λ sym. ps_allocs argv a b (not (is_zero sym)))

  unfoldable pub ps_second : List Text → Address → Outcome
  ps_second argv a = with_address argv 4 (ps_flag argv a)

  unfoldable pub read_ps : List Text → Outcome
  unfolding with_address ps_second ps_flag ps_allocs
  read_ps argv = with_address argv 2 (ps_second argv)

  unfoldable pub sps_allocs : List Text → Address → Address → Bool → ℕ → Outcome
  sps_allocs argv a b sym runs =
      with_number argv 8 (λ sim. starts (statistical_ps a b sym runs (u16 (to_word 32 sim))))

  unfoldable pub sps_runs : List Text → Address → Address → Bool → Outcome
  sps_runs argv a b sym = with_number argv 7 (λ n. sps_allocs argv a b sym (to_word 32 n))

  unfoldable pub sps_flag : List Text → Address → Address → Outcome
  sps_flag argv a b = with_number argv 6 (λ sym. sps_runs argv a b (not (is_zero sym)))

  unfoldable pub sps_second : List Text → Address → Outcome
  sps_second argv a = with_address argv 4 (sps_flag argv a)

  unfoldable pub read_sps : List Text → Outcome
  unfolding with_address sps_second sps_flag sps_runs sps_allocs
  read_sps argv = with_address argv 2 (sps_second argv)

  -- The chain of tests on `argv[1]`.
  unfoldable pub by_mode : List Text → Text → Outcome
  unfolding starts_with with_address read_snr read_ps read_sps
  by_mode argv mode =
      if starts_with nr mode
      then with_address argv 2 (λ a. starts (normal a))
      else if starts_with snr mode
      then read_snr argv
      else if starts_with ps mode
      then read_ps argv
      else if starts_with sps mode
      then read_sps argv
      else usage 4

  unfoldable pub main : List Text → Outcome
  unfolding with_argument by_mode
  main argv = if ltb (length argv) 4 then usage 1 else with_argument argv 1 (by_mode argv)

-- How the predicting runners set up the port manager.
unfoldable pub configure : ℕ → PortManager → PortManager
unfolding set_simulated_allocs_per_second set_reserved_port_range_per_alloc
configure sim_port_allocs_per_second p =
    if sim_port_allocs_per_second == 0
    then p
    else set_reserved_port_range_per_alloc (u16 (sim_port_allocs_per_second * 5 + 50))
        (set_simulated_allocs_per_second sim_port_allocs_per_second p)
