-- ===== src/Stripes.antt =====
-- src/daemon/daemon.cpp: how a tensor is cut into stripes for the NVMe drives.
use state_spectre.Prelude.{
  ℕ, zero, suc, ◌+◌, ◌-◌, ◌*◌, ◌/◌, ◌≤◌, ◌<◌, ◌≡◌, List, [], ◌∷◌, arith, length, ◌==◌,
  if◌then◌else◌,
}
use native.Mathlib.Nat.{div-add-mod}

-- the loop of stripe_segments, `left` rounds before its end, with `consumed` bytes given out
unfoldable pub segments_from : ℕ → ℕ → ℕ → ℕ → List ℕ
segments_from nbytes per consumed zero = []
segments_from nbytes per consumed (suc left) =
    let seg = if left == 0 then nbytes - consumed else per in
    seg ∷ segments_from nbytes per (consumed + seg) left

unfoldable pub stripe_segments : ℕ → ℕ → List ℕ
stripe_segments stripes nbytes = segments_from nbytes (nbytes / stripes) 0 stripes

abbrev pub sum : List ℕ → ℕ
sum [] = 0
sum (x ∷ xs) = x + sum xs

length-segments : (n per c left : ℕ) → length (segments_from n per c left) ≡ left
unfolding segments_from
length-segments n per c zero = omega arith
length-segments n per c (suc left) =
    omega (arith, length-segments n per (c + (if left == 0 then n - c else per)) left)

sum-segments :
    (n per c left : ℕ) → 0 < left → c + per * left ≤ n → c + sum (segments_from n per c left) ≡ n
unfolding segments_from
sum-segments n per c zero h p = absurd (omega arith)
sum-segments n per c (suc zero) h p = omega arith
sum-segments n per c (suc (suc left)) h p =
    let rest = sum-segments n per (c + per) (suc left) (omega arith) (omega arith) in
    ground (arith, rest)

-- With at least one stripe there are as many segments as stripes, and they sum up to the tensor.
pub stripe_segments_cover :
    (stripes nbytes : ℕ)
    → 0 < stripes
    → (length (stripe_segments stripes nbytes) ≡ stripes)
      × (sum (stripe_segments stripes nbytes) ≡ nbytes)
unfolding stripe_segments
stripe_segments_cover stripes nbytes h = (
  length-segments nbytes (nbytes / stripes) 0 stripes,
  omega (
    arith,
    sum-segments nbytes (nbytes / stripes) 0 stripes h (omega (arith, div-add-mod nbytes stripes)),
  ),
)
