-- ===== src/Tests/Starting.antt =====
-- Arguments of `main` in main.cpp.
use p2p_ps_stun.Prelude.{ℕ, ℤ, pos, refl, Option, some, List, [], ◌∷◌, true}
use p2p_ps_stun.Wire.{Address, parse_ip, htonl}
use p2p_ps_stun.Arguments.{
  Text, Job, statistical_ps, get_elem?, starts_with, sps, main, by_mode, read_sps, sps_second,
  sps_flag, sps_runs, sps_allocs, with_argument, with_number, with_address,
}
use p2p_ps_stun.Arguments.Reading.{HasAddresses, started_jobs_have_addresses}

-- 10.0.0.1 for every text.
abbrev inet_aton : Text → Option ℕ
inet_aton a = some 16777226

abbrev stoi : Text → Option ℤ
stoi a = some (pos 3333)

abbrev arguments : List Text
arguments = [] ∷ sps ∷ [] ∷ [] ∷ [] ∷ [] ∷ [] ∷ [] ∷ [] ∷ []

abbrev host : Address
host = record { ip = 167772161; port = 3333 }

abbrev job : Job
job = statistical_ps host host true 3333 3333

started_jobs_have_addresses_example : HasAddresses job
unfolding main with_argument get_elem? by_mode starts_with read_sps sps_second sps_flag sps_runs
    sps_allocs with_address with_number parse_ip htonl
started_jobs_have_addresses_example = started_jobs_have_addresses inet_aton stoi arguments job refl

-- As the line of `usage` for ps, with the mode sps.
abbrev few : List Text
few = [] ∷ sps ∷ [] ∷ [] ∷ [] ∷ [] ∷ [] ∷ [] ∷ []
