-- ===== src/Prelude/Entries.antt =====
-- What holds of every entry of a map, and stays so.
use Prim.Native.Nat.{ℕ}
use mathlib.Core.Path.{◌≡◌, sym, ap, subst}
use mathlib.Core.List.{[], ◌∷◌}
use mathlib.Core.Option.{Option, none, some}
use p2p_ps_stun.Prelude.Tests.{◌==◌, Bool-cases, Option-cases, ==_iff}
use mathlib.Core.Logic.{inl, inr}
use native.Mathlib.Omega.{arith}
use p2p_ps_stun.Prelude.Lists.{All}
use p2p_ps_stun.Prelude.Dict.{Map, find, insert, set, erase}

module _ {ℓ κ} {V : Type ℓ} (P : ℕ × V → Type κ) where
  or_else : V → Option V → V
  or_else w none = w
  or_else w (some v) = v

  pub find-Every : (k : ℕ) (v : V) (m : Map V) → All P m → find k m ≡ some v → P (k, v)
  unfolding find or_else
  find-Every k v [] h e = ground arith
  find-Every k v ((j, w) ∷ m) h e = elim (Bool-cases (j == k)) [
    | inl t ↦
        let same : w ≡ v = ap (λ o. or_else w o) (rw t at e) in
        subst (λ x. P (k, x)) same (subst (λ i. P (i, w)) ((==_iff j k).0 t) h.0)
    | inr t ↦ find-Every k v m h.1 (rw t at e)
  ]

  pub insert-Every : (k : ℕ) (v : V) (m : Map V) → P (k, v) → All P m → All P (insert k v m)
  unfolding insert
  insert-Every k v m p h = elim (Option-cases (find k m)) [
    | inl e ↦ rw (e, insert) (p, h)
    | inr (w, e) ↦ rw (e, insert) h
  ]

  pub set-Every : (k : ℕ) (v : V) (m : Map V) → P (k, v) → All P m → All P (set k v m)
  unfolding set
  set-Every k v [] p h = tt
  set-Every k v ((j, w) ∷ m) p h = elim (Bool-cases (j == k)) [
    | inl e ↦ rw e (subst (λ i. P (i, v)) (sym ((==_iff j k).0 e)) p, h.1)
    | inr e ↦ rw e (h.0, set-Every k v m p h.1)
  ]

  pub erase-Every : (k : ℕ) (m : Map V) → All P m → All P (erase k m)
  unfolding erase
  erase-Every k [] h = tt
  erase-Every k ((j, w) ∷ m) h = elim (Bool-cases (j == k)) [
    | inl e ↦ rw e (erase-Every k m h.1)
    | inr e ↦ rw e (h.0, erase-Every k m h.1)
  ]
