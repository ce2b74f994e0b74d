-- ===== src/Base/Lists.antt =====
-- Slices: lists measured by native numbers, and Go's `append` of one element.
use Prim.Native.Nat.{ℕ, zero, suc}
use mathlib.Core.Path.{◌≡◌, refl, ap}
use mathlib.Core.List.{List, [], ◌∷◌, ◌++◌, append_assoc}

module _ {ℓ} {A : Type ℓ} where
  abbrev pub length : List A → ℕ
  length [] = 0
  length (x ∷ xs) = suc (length xs)

  -- `append(xs, x)`
  unfoldable pub append : List A → A → List A
  append xs x = xs ++ x ∷ []

  pub length-append : (xs : List A) (x : A) → length (append xs x) ≡ suc (length xs)
  unfolding append
  length-append [] x = refl
  length-append (y ∷ xs) x = ap suc (length-append xs x)

  pub append-append : (xs ys : List A) (x : A) → append xs x ++ ys ≡ xs ++ x ∷ ys
  unfolding append
  append-append xs ys x = append_assoc xs (x ∷ []) ys

  abbrev pub replicate : ℕ → A → List A
  replicate zero a = []
  replicate (suc n) a = a ∷ replicate n a
