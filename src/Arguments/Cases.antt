-- ===== src/Arguments/Cases.antt =====
-- A property of what `main` does (main.cpp), from one case for each mode.
use p2p_ps_stun.Prelude.{
  ℕ, ℤ, zero, suc, ◌+◌, ◌<◌, ◌≡◌, ◌≢◌, is_zero, Bool, not, Option, none, some, Option-cases,
  Bool-cases, inl, inr, List, [], ◌∷◌, length, ltb, ◌==◌, arith,
}
use p2p_ps_stun.Wire.{Address, parse_ip}
use p2p_ps_stun.Ports.{u16}
use p2p_ps_stun.Arguments.{
  Text, normal, statistical, normal_ps, statistical_ps, Outcome, usage, starts, undefined, throws,
  get_elem?, with_argument, with_number, with_address, to_word, starts_with, nr, snr, ps, sps,
  snr_runs, read_snr, ps_allocs, ps_flag, ps_second, read_ps, sps_allocs, sps_runs, sps_flag,
  sps_second, read_sps, by_mode, main,
}

get_elem?-lt : (argv : List Text) (i : ℕ) (a : Text) → get_elem? argv i ≡ some a → i < length argv
unfolding get_elem?
get_elem?-lt [] i a h = ground arith
get_elem?-lt (b ∷ argv) zero a h = omega arith
get_elem?-lt (b ∷ argv) (suc i) a h = omega (arith, get_elem?-lt argv i a h)

module _ (inet_aton : Text → Option ℕ) (stoi : Text → Option ℤ) (argv : List Text)
    (Q : Outcome → Type 0) (u : Q undefined) (t : (a : Text) → stoi a ≡ none → Q throws)
    (z : (a : Text) → parse_ip inet_aton a ≡ 0 → Q (usage 1)) where
  argument-elim :
      (i : ℕ) (f : Text → Outcome)
      → ((a : Text) → i < length argv → Q (f a))
      → Q (with_argument argv i f)
  unfolding with_argument
  argument-elim i f h = elim (Option-cases (get_elem? argv i)) [
    | inl e ↦ rw (e, with_argument) u
    | inr (a, e) ↦ rw (e, with_argument) (h a (get_elem?-lt argv i a e))
  ]

  number-elim :
      (i : ℕ) (f : ℤ → Outcome)
      → ((n : ℤ) → i < length argv → Q (f n))
      → Q (with_number inet_aton stoi argv i f)
  unfolding with_number
  number-elim i f h =
      argument-elim i _
        (λ a lt. elim (Option-cases (stoi a)) [ inl e ↦ rw e (t a e) | inr (n, e) ↦ rw e (h n lt) ])

  address-elim :
      (i : ℕ) (f : Address → Outcome)
      → ((a : Address) → a.ip ≢ 0 → i + 1 < length argv → Q (f a))
      → Q (with_address inet_aton stoi argv i f)
  unfolding with_address
  address-elim i f h = argument-elim i _ (λ a lt. elim (Bool-cases (parse_ip inet_aton a == 0)) [
    | inl e ↦ rw e (z a (ground arith))
    | inr e ↦ rw e (number-elim (i + 1) _ (λ n more. h _ (ground arith) more))
  ])

  pub snr-elim :
      ((a : Address) (n : ℕ) → a.ip ≢ 0 → 4 < length argv → Q (starts (statistical a n)))
      → Q (read_snr inet_aton stoi argv)
  unfolding read_snr snr_runs
  snr-elim h = address-elim 2 (snr_runs inet_aton stoi argv) (λ a k l.
      number-elim 4 (λ n. starts (statistical a (to_word 32 n))) (λ n m. h a (to_word 32 n) k m))

  pub ps-elim :
      ((a b : Address) (sym : Bool) (sim : ℕ)
        → a.ip ≢ 0
        → b.ip ≢ 0
        → 7 < length argv
        → Q (starts (normal_ps a b sym sim)))
      → Q (read_ps inet_aton stoi argv)
  unfolding read_ps ps_second ps_flag ps_allocs
  ps-elim h = address-elim 2 (ps_second inet_aton stoi argv) (λ a k l.
      address-elim 4 (ps_flag inet_aton stoi argv a) (λ b p q.
        number-elim 6 (λ m. ps_allocs inet_aton stoi argv a b (not (is_zero m)))
          (λ m v.
            let sym = not (is_zero m) in
            number-elim 7 (λ n. starts (normal_ps a b sym (u16 (to_word 32 n))))
              (λ n w. h a b sym (u16 (to_word 32 n)) k p w))))

  pub sps-elim :
      ((a b : Address) (sym : Bool) (runs sim : ℕ)
        → a.ip ≢ 0
        → b.ip ≢ 0
        → 8 < length argv
        → Q (starts (statistical_ps a b sym runs sim)))
      → Q (read_sps inet_aton stoi argv)
  unfolding read_sps sps_second sps_flag sps_runs sps_allocs
  sps-elim h = address-elim 2 (sps_second inet_aton stoi argv) (λ a k l.
      address-elim 4 (sps_flag inet_aton stoi argv a) (λ b p q.
        number-elim 6 (λ m. sps_runs inet_aton stoi argv a b (not (is_zero m)))
          (λ m v.
            let sym = not (is_zero m) in
            number-elim 7 (λ n. sps_allocs inet_aton stoi argv a b sym (to_word 32 n))
              (λ n w.
                number-elim 8
                  (λ o. starts (statistical_ps a b sym (to_word 32 n) (u16 (to_word 32 o))))
                  (λ o x. h a b sym (to_word 32 n) (u16 (to_word 32 o)) k p x)))))

  by_mode-elim :
      (mode : Text)
      → Q (usage 4)
      → Q (with_address inet_aton stoi argv 2 (λ a. starts (normal a)))
      → Q (read_snr inet_aton stoi argv)
      → Q (read_ps inet_aton stoi argv)
      → Q (read_sps inet_aton stoi argv)
      → Q (by_mode inet_aton stoi argv mode)
  unfolding by_mode
  by_mode-elim mode none_such normal_run snr_run ps_run sps_run =
      elim (Bool-cases (starts_with nr mode)) [
        | inl e ↦ rw e normal_run
        | inr e ↦ rw e (elim (Bool-cases (starts_with snr mode)) [
          | inl f ↦ rw f snr_run
          | inr f ↦ rw f (elim (Bool-cases (starts_with ps mode)) [
            | inl g ↦ rw g ps_run
            | inr g ↦ rw g (elim (Bool-cases (starts_with sps mode)) [
              | inl h ↦ rw h sps_run
              | inr h ↦ rw h none_such
            ])
          ])
        ])
      ]

  -- One case for each mode.
  pub main-elim :
      Q (usage 1)
      → Q (usage 4)
      → ((a : Address) → a.ip ≢ 0 → 3 < length argv → Q (starts (normal a)))
      → Q (read_snr inet_aton stoi argv)
      → Q (read_ps inet_aton stoi argv)
      → Q (read_sps inet_aton stoi argv)
      → Q (main inet_aton stoi argv)
  unfolding main
  main-elim few none_such normal_run snr_run ps_run sps_run =
      elim (Bool-cases (ltb (length argv) 4)) [
        | inl e ↦ rw e few
        | inr e ↦ rw e (
            argument-elim 1 (by_mode inet_aton stoi argv) (λ mode l.
              by_mode-elim mode none_such (address-elim 2 (λ a. starts (normal a)) normal_run)
                snr_run ps_run sps_run))
      ]
