-- ===== src/Prelude/Lists.antt =====
-- Lists measured by native numbers, and predicates on all entries.
use Prim.Native.Nat.{ℕ, zero, suc, ◌+◌, ◌*◌, ◌≤◌}
use mathlib.Core.Path.{◌≡◌, refl, ap}
use mathlib.Core.List.{List, [], ◌∷◌, ◌++◌}
use native.Mathlib.Omega.{arith}

module _ {ℓ} {A : Type ℓ} where
  abbrev pub length : List A → ℕ
  length [] = 0
  length (x ∷ xs) = suc (length xs)

  abbrev pub replicate : ℕ → A → List A
  replicate zero a = []
  replicate (suc n) a = a ∷ replicate n a

  abbrev pub take : ℕ → List A → List A
  take zero xs = []
  take (suc n) [] = []
  take (suc n) (x ∷ xs) = x ∷ take n xs

  pub take-all : (n : ℕ) (xs : List A) → length xs ≤ n → take n xs ≡ xs
  take-all zero [] h = refl
  take-all zero (x ∷ xs) h = ground arith
  take-all (suc n) [] h = refl
  take-all (suc n) (x ∷ xs) h = ap (λ l. x ∷ l) (take-all n xs (omega arith))

  pub take-append : (xs ys : List A) → take (length xs) (xs ++ ys) ≡ xs
  take-append [] ys = refl
  take-append (x ∷ xs) ys = ap (λ l. x ∷ l) (take-append xs ys)

  pub length-append : (xs ys : List A) → length (xs ++ ys) ≡ length xs + length ys
  length-append [] ys = omega arith
  length-append (x ∷ xs) ys = omega (arith, length-append xs ys)

module _ {ℓ} {A : Type ℓ} where
  -- A sum over the entries.
  unfoldable pub total : (A → ℕ) → List A → ℕ
  total w [] = 0
  total w (x ∷ xs) = w x + total w xs

  pub total-append : (w : A → ℕ) (xs ys : List A) → total w (xs ++ ys) ≡ total w xs + total w ys
  unfolding total
  total-append w [] ys = omega arith
  total-append w (x ∷ xs) ys = omega (arith, total-append w xs ys)

  pub total-middle :
      (w : A → ℕ) (before : List A) (x : A) (after : List A)
      → total w (before ++ x ∷ after) ≡ total w before + w x + total w after
  unfolding total
  total-middle w before x after = omega (arith, total-append w before (x ∷ after))

  pub total-le : (v w : A → ℕ) → ((x : A) → v x ≤ w x) → (xs : List A) → total v xs ≤ total w xs
  unfolding total
  total-le v w h [] = omega arith
  total-le v w h (x ∷ xs) = omega (arith, h x, total-le v w h xs)

  pub total-replicate : (w : A → ℕ) (n : ℕ) (a : A) → total w (replicate n a) ≡ n * w a
  unfolding total
  total-replicate w zero a = omega arith
  total-replicate w (suc n) a = grind (arith, total-replicate w n a)

abbrev pub All {ℓ κ} : {A : Type ℓ} → (A → Type κ) → List A → Type κ
All P [] = Unit
All P (x ∷ xs) = P x × All P xs

pub All-append {ℓ κ} :
    {A : Type ℓ} (P : A → Type κ) (xs ys : List A) → All P xs → All P ys → All P (xs ++ ys)
All-append P [] ys hx hy = hy
All-append P (x ∷ xs) ys hx hy = (hx.0, All-append P xs ys hx.1 hy)

pub All-split {ℓ κ} :
    {A : Type ℓ} (P : A → Type κ) (xs ys : List A) → All P (xs ++ ys) → All P xs × All P ys
All-split P [] ys h = (tt, h)
All-split P (x ∷ xs) ys h = let (hx, hy) = All-split P xs ys h.1 in ((h.0, hx), hy)

-- A predicate that implies another on each entry does on all.
pub All-map {ℓ κ μ} :
    {A : Type ℓ} (P : A → Type κ) (Q : A → Type μ) (f : (x : A) → P x → Q x) (xs : List A)
    → All P xs
    → All Q xs
All-map P Q f [] h = tt
All-map P Q f (x ∷ xs) h = (f x h.0, All-map P Q f xs h.1)

pub All-replicate {ℓ κ} :
    {A : Type ℓ} (P : A → Type κ) (n : ℕ) (a : A) → P a → All P (replicate n a)
All-replicate P zero a h = tt
All-replicate P (suc n) a h = (h, All-replicate P n a h)

-- A predicate that holds of all entries holds of one, and goes on to hold when it is replaced.
pub All-entry {ℓ κ} :
    {A : Type ℓ} (P : A → Type κ) (before : List A) (t : A) (after : List A)
    → All P (before ++ t ∷ after)
    → P t
All-entry P before t after h = (All-split P before (t ∷ after) h).1.0

pub All-replace {ℓ κ} :
    {A : Type ℓ} (P : A → Type κ) (before : List A) (t t' : A) (after : List A)
    → All P (before ++ t ∷ after)
    → P t'
    → All P (before ++ t' ∷ after)
All-replace P before t t' after h p =
    let (hb, ha) = All-split P before (t ∷ after) h in All-append P before (t' ∷ after) hb (p, ha.1)
