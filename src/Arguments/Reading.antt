-- ===== src/Arguments/Reading.antt =====
-- What `main` needs before it starts a runner (main.cpp).
use p2p_ps_stun.Prelude.{
  ℕ, ℤ, ◌+◌, ◌*◌, ◌^◌, ◌<◌, ◌≡◌, ◌≢◌, ◌⊎◌, subst, Option, none, List, length, arith,
}
use p2p_ps_stun.Wire.{parse_ip}
use p2p_ps_stun.Ports.{new_port_manager}
use p2p_ps_stun.Connector.Scan.{scan_range}
use p2p_ps_stun.Arguments.{
  Text, Job, normal, statistical, normal_ps, statistical_ps, Outcome, usage, starts, undefined,
  throws, snr, ps, sps, main, configure,
}
use p2p_ps_stun.Arguments.Cases.{snr-elim, ps-elim, sps-elim, main-elim}

-- No address of the job is 0.0.0.0.
abbrev pub HasAddresses : Job → Type 0
HasAddresses (normal a) = a.ip ≢ 0
HasAddresses (statistical a runs) = a.ip ≢ 0
HasAddresses (normal_ps a b sym sim) = (a.ip ≢ 0) × (b.ip ≢ 0)
HasAddresses (statistical_ps a b sym runs sim) = (a.ip ≢ 0) × (b.ip ≢ 0)

abbrev Prepared : List Text → Outcome → Type 0
Prepared argv (usage c) = Unit
Prepared argv (starts j) = HasAddresses j
Prepared argv undefined = Unit
Prepared argv throws = Unit

-- Too few arguments for a mode that wants more than four.
abbrev pub IsShort : List Text → Text → Type 0
IsShort argv mode =
    ((mode ≡ snr) × (length argv < 5))
    ⊎ (((mode ≡ ps) × (length argv < 8)) ⊎ ((mode ≡ sps) × (length argv < 9)))

module _ (inet_aton : Text → Option ℕ) (stoi : Text → Option ℤ) where
  main-Prepared : (argv : List Text) → Prepared argv (main inet_aton stoi argv)
  main-Prepared argv =
      let u = λ (a : Text) (h : stoi a ≡ none). tt in
      let z = λ (a : Text) (h : parse_ip inet_aton a ≡ 0). tt in
      main-elim inet_aton stoi argv (Prepared argv) tt u z tt tt (λ a k l. k)
        (snr-elim inet_aton stoi argv (Prepared argv) tt u z (λ a n k l. k))
        (ps-elim inet_aton stoi argv (Prepared argv) tt u z (λ a b sym sim k p l. (k, p)))
        (sps-elim inet_aton stoi argv (Prepared argv) tt u z (λ a b sym runs sim k p l. (k, p)))

  -- Whatever its arguments are, `main` starts a runner only with servers whose addresses are not
  -- 0.0.0.0, which is what a text becomes that is no address.
  pub started_jobs_have_addresses :
      (argv : List Text) (j : Job) → main inet_aton stoi argv ≡ starts j → HasAddresses j
  started_jobs_have_addresses argv j e = subst (Prepared argv) e (main-Prepared argv)

-- With simulated traffic that makes no number wrap, or with none, the range that is reserved for each
-- base port of the client's port manager exceeds the ports that one connection takes from a base: one
-- for the second request and one for each socket of the scan.
pub range_covers_scan :
    (sim rand : ℕ)
    → sim * 5 + 50 < 2 ^ 16
    → scan_range + 1 < (configure sim (new_port_manager 75 5000 rand)).reserved_port_range_per_alloc
unfolding configure new_port_manager
range_covers_scan sim rand h = ground arith
