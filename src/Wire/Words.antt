-- ===== src/Wire/Words.antt =====
-- The fixed-width unsigned integers of the wire format, measured in bytes.
use Prim.Native.Nat.{ℕ, zero, suc, ◌%◌, ◌^◌, ◌<◌}
use mathlib.Core.Path.{◌≡◌, ap}
use mathlib.Core.List.{List}
use mathlib.Core.HLevel.{Σ_prop_path}
use native.Mathlib.Omega.{arith}
use native.Mathlib.Bridge.{le_prop}
use native.Mathlib.Nat.{pow-suc, mod-lt, mod-eq_of_lt}

pub record Word (n : ℕ) : Type 0 where
  pub value : ℕ
  pub below : value < 256 ^ n

abbrev pub Byte : Type 0
Byte = Word 1

abbrev pub U16 : Type 0
U16 = Word 2

abbrev pub U32 : Type 0
U32 = Word 4

abbrev pub U64 : Type 0
U64 = Word 8

abbrev pub Bytes : Type 0
Bytes = List Byte

pub pow256_pos : (n : ℕ) → 0 < 256 ^ n
pow256_pos zero = omega arith
pow256_pos (suc n) = omega (arith, pow-suc 256 n, pow256_pos n)

-- `static_cast` to the unsigned type of n bytes
unfoldable pub cast : (n : ℕ) → ℕ → Word n
cast n v = record { value = v % 256 ^ n; below = mod-lt v (pow256_pos n) }

pub Word-ext : {n : ℕ} {a b : Word n} → a.value ≡ b.value → a ≡ b
Word-ext {n} {a} {b} e =
    ap (λ (p : (v : ℕ) × (v < 256 ^ n)). let w : Word n = record { value = p.0; below = p.1 } in w)
      (Σ_prop_path (λ (v : ℕ). le_prop {n = suc v} {m = 256 ^ n}) {u = (a.value, a.below)}
        {v = (b.value, b.below)} e)

pub cast-value : {n : ℕ} (a : Word n) → cast n a.value ≡ a
unfolding cast
cast-value a = Word-ext (mod-eq_of_lt a.below)
