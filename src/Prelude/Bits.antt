-- ===== src/Prelude/Bits.antt =====
-- Powers of two, and `x & (2^k - 1)` as a remainder.
use Prim.Native.Nat.{
  ℕ, zero, suc, ◌+◌, ◌-◌, ◌*◌, ◌/◌, ◌%◌, ◌^◌, ◌≤◌, ◌<◌, min, bit_and, digits, bit_and-bitwise,
}
use mathlib.Core.Path.{◌≡◌, refl, sym, ap, ◌∙◌}
use native.Mathlib.Decide.{dec_le}
use native.Mathlib.Omega.{arith}
use native.Mathlib.Nat.{pow-suc, mod-lt, div-add-mod, mul-add-mod_self_left, mod-eq_of_lt}

pub pow2_pos : (k : ℕ) → 0 < 2 ^ k
pow2_pos zero = omega arith
pow2_pos (suc k) = omega (arith, pow-suc 2 k, pow2_pos k)

pub pow2_split : (k j : ℕ) → 2 ^ (k + j) ≡ 2 ^ k * 2 ^ j
pow2_split zero j = ap (λ n. 2 ^ n) (let e : zero + j ≡ j = omega arith in e) ∙ omega arith
pow2_split (suc k) j =
    ap (λ n. 2 ^ n) (let e : suc k + j ≡ suc (k + j) = omega arith in e)
    ∙ omega (arith, pow-suc 2 (k + j), ap (λ t. t * 2 ^ j) (pow-suc 2 k), pow2_split k j)

-- More digits to go than the number has change nothing.
digits_more :
    (n m a b : ℕ) → a ≤ n → n ≤ m → digits (λ b. zero) min m a b ≡ digits (λ b. zero) min n a b
digits_more zero zero a b p q = refl
digits_more zero (suc m) zero b p q = refl
digits_more zero (suc m) (suc a) b p q = absurd (omega arith)
digits_more (suc n) zero a b p q = absurd (omega arith)
digits_more (suc n) (suc m) zero b p q = refl
digits_more (suc n) (suc m) (suc a) b p q =
    ap (λ t. t * 2 + min (suc a % 2) (b % 2))
      (digits_more n m (suc a / 2) (b / 2) (omega arith) (omega arith))

bit_and_low : (a b : ℕ) → bit_and a b ≡ bit_and (a / 2) (b / 2) * 2 + min (a % 2) (b % 2)
bit_and_low zero b = bit_and-bitwise 0 b ∙ omega (arith, bit_and-bitwise 0 (b / 2))
bit_and_low (suc a) b =
    bit_and-bitwise (suc a) b
    ∙ ap (λ t. t * 2 + min (suc a % 2) (b % 2))
        (digits_more (suc a / 2) a (suc a / 2) (b / 2) (omega arith) (omega arith)
          ∙ sym (bit_and-bitwise (suc a / 2) (b / 2)))

bit_and-zero_upto : (n a : ℕ) → a ≤ n → bit_and a 0 ≡ 0
bit_and-zero_upto zero zero h = refl
bit_and-zero_upto zero (suc a) h = absurd (omega arith)
bit_and-zero_upto (suc n) a h =
    omega (arith, bit_and_low a 0, bit_and-zero_upto n (a / 2) (omega arith))

mod_double : (a p : ℕ) → 0 < p → a % (2 * p) ≡ a / 2 % p * 2 + a % 2
mod_double a p h =
    ap (λ t. t % (2 * p))
      (parts (a / 2 / p) (a / 2 % p) (a % 2) (omega (arith, div-add-mod (a / 2) p)))
    ∙ mul-add-mod_self_left (2 * p) (a / 2 / p) _
    ∙ mod-eq_of_lt (omega (arith, mod-lt (a / 2) h))
  where
    parts : (q r s : ℕ) → a ≡ 2 * (p * q + r) + s → a ≡ 2 * p * q + (r * 2 + s)
    parts q r s e = omega arith

-- Masking by 2^k - 1 keeps the remainder by 2^k.
pub bit_and_ones : (k a : ℕ) → bit_and a (2 ^ k - 1) ≡ a % 2 ^ k
bit_and_ones zero a = omega (arith, bit_and-zero_upto a a (omega arith))
bit_and_ones (suc k) a =
    let p : ℕ = 2 ^ k in
    omega (
      arith,
      pow-suc 2 k,
      pow2_pos k,
      bit_and_low a (2 ^ suc k - 1),
      ap (λ t. bit_and (a / 2) t)
          (let e : (2 ^ suc k - 1) / 2 ≡ 2 ^ k - 1 = omega (arith, pow-suc 2 k, pow2_pos k) in e),
      bit_and_ones k (a / 2),
      mod_double a (2 ^ k) (pow2_pos k),
      ap (λ t. a % t) (let e : 2 ^ suc k ≡ 2 * 2 ^ k = omega (arith, pow-suc 2 k) in e),
    )

pub pow2_mono : (k n : ℕ) → k ≤ n → 2 ^ k ≤ 2 ^ n
pow2_mono k zero h = ap_le (omega arith)
  where
    ap_le : k ≡ 0 → 2 ^ k ≤ 2 ^ 0
    ap_le e = rw e (omega arith)
pow2_mono k (suc n) h = elim (dec_le k n) [
  | yes le ↦ omega (arith, pow-suc 2 n, pow2_mono k n le)
  | no more ↦ let e : k ≡ suc n = omega arith in rw e (omega arith)
]
