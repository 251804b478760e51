-- ===== src/Prelude/Slices.antt =====
-- The first n elements of a list, and what follows them.
use Prim.Native.Nat.{ℕ, zero, suc, ◌-◌, ◌≤◌, ◌<◌}
use mathlib.Core.Path.{◌≡◌, refl, ap, ◌∙◌}
use mathlib.Core.List.{List, [], ◌∷◌, ◌++◌}
use native.Mathlib.Omega.{arith}
use state_spectre.Prelude.Lists.{length}

abbrev pub take {ℓ} : {A : Type ℓ} → ℕ → List A → List A
take zero xs = []
take (suc n) [] = []
take (suc n) (x ∷ xs) = x ∷ take n xs

abbrev pub drop {ℓ} : {A : Type ℓ} → ℕ → List A → List A
drop zero xs = xs
drop (suc n) [] = []
drop (suc n) (x ∷ xs) = drop n xs

module _ {ℓ} {A : Type ℓ} where
  pub take_within : (k : ℕ) (xs ys : List A) → k < length xs → take k (xs ++ ys) ≡ take k xs
  take_within k [] ys h = absurd (omega arith)
  take_within zero (x ∷ xs) ys h = refl
  take_within (suc k) (x ∷ xs) ys h = ap (λ t. x ∷ t) (take_within k xs ys (omega arith))

  pub take_past :
      (k : ℕ) (xs ys : List A) → length xs ≤ k → take k (xs ++ ys) ≡ xs ++ take (k - length xs) ys
  take_past k [] ys h = ap (λ n. take n ys) (let e : k ≡ k - 0 = omega arith in e)
  take_past zero (x ∷ xs) ys h = absurd (omega arith)
  take_past (suc k) (x ∷ xs) ys h =
      ap (λ t. x ∷ t)
        (take_past k xs ys (omega arith)
          ∙ ap (λ n. xs ++ take n ys)
              (let e : k - length xs ≡ suc k - suc (length xs) = omega arith in e))

  pub take-append : (xs ys : List A) → take (length xs) (xs ++ ys) ≡ xs
  take-append [] ys = refl
  take-append (x ∷ xs) ys = ap (λ t. x ∷ t) (take-append xs ys)

  pub drop-append : (xs ys : List A) → drop (length xs) (xs ++ ys) ≡ ys
  drop-append [] ys = refl
  drop-append (x ∷ xs) ys = drop-append xs ys

  pub length-take_le : (k : ℕ) (xs : List A) → k < length xs → length (take k xs) ≡ k
  length-take_le k [] h = absurd (omega arith)
  length-take_le zero (x ∷ xs) h = refl
  length-take_le (suc k) (x ∷ xs) h = omega (arith, length-take_le k xs (omega arith))

  pub length-drop_le : (n : ℕ) (xs : List A) → length (drop n xs) ≤ length xs
  length-drop_le zero xs = omega arith
  length-drop_le (suc n) [] = omega arith
  length-drop_le (suc n) (x ∷ xs) = omega (arith, length-drop_le n xs)
