-- ===== src/Prelude/Dict.antt =====
-- `std::map` with `uint32_t` or `uint16_t` keys, as an association list: what `find`, `insert`,
-- `erase` and a write through an iterator do.
use Prim.Native.Nat.{ℕ}
use mathlib.Core.Path.{◌≡◌}
use mathlib.Core.List.{List, [], ◌∷◌}
use mathlib.Core.Option.{Option, none, some}
use native.Mathlib.Omega.{arith}
use p2p_ps_stun.Prelude.Tests.{◌==◌, ==_refl, if◌then◌else◌}

abbrev pub Map {ℓ} : Type ℓ → Type ℓ
Map V = List (ℕ × V)

module _ {ℓ} {V : Type ℓ} where
  unfoldable pub find : ℕ → Map V → Option V
  find k [] = none
  find k ((j, v) ∷ m) = if j == k then some v else find k m

  -- An entry that is there stays as it is.
  unfoldable pub insert : ℕ → V → Map V → Map V
  insert k v m = elim (find k m) [ none ↦ (k, v) ∷ m | some _ ↦ m ]

  -- A write through an iterator: nothing happens to an absent key.
  unfoldable pub set : ℕ → V → Map V → Map V
  set k v [] = []
  set k v ((j, w) ∷ m) = let rest = set k v m in if j == k then (j, v) ∷ m else (j, w) ∷ rest

  unfoldable pub erase : ℕ → Map V → Map V
  erase k [] = []
  erase k ((j, v) ∷ m) = let rest = erase k m in if j == k then rest else (j, v) ∷ rest

  pub find-insert :
      (k j : ℕ) (v : V) (m : Map V)
      → find k m ≡ none
      → find j (insert k v m) ≡ (if k == j then some v else find j m)
  unfolding insert find
  find-insert k j v m e = ground arith

  pub find-set :
      (k j : ℕ) (v w : V) (m : Map V)
      → find k m ≡ some w
      → find j (set k v m) ≡ (if k == j then some v else find j m)
  unfolding set find
  find-set k j v w [] e = ground arith
  find-set k j v w ((i, x) ∷ m) e = ground (arith, find-set k j v w m)

  pub find-erase : (k j : ℕ) (m : Map V) → find j (erase k m) ≡ (if k == j then none else find j m)
  unfolding erase find
  find-erase k j [] = ground arith
  find-erase k j ((i, x) ∷ m) = ground (arith, find-erase k j m)

  pub find-insert_self :
      (k : ℕ) (v : V) (m : Map V) → find k m ≡ none → find k (insert k v m) ≡ some v
  find-insert_self k v m e = rw (==_refl k) at (find-insert k k v m e)

  pub find-set_self :
      (k : ℕ) (v w : V) (m : Map V) → find k m ≡ some w → find k (set k v m) ≡ some v
  find-set_self k v w m e = rw (==_refl k) at (find-set k k v w m e)
