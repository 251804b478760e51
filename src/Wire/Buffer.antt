-- ===== src/Wire/Buffer.antt =====
-- `Writer` and `Reader` (src/common/wire.h).
use Prim.Native.Nat.{ℕ, zero, suc, ◌+◌, ◌*◌, ◌/◌, ◌%◌, ◌^◌, ◌<◌}
use mathlib.Core.Bool.{Bool, not}
use mathlib.Core.Option.{Option, none, some}
use mathlib.Core.List.{List, [], ◌∷◌, ◌++◌}
use native.Mathlib.Omega.{arith}
use native.Mathlib.Nat.{pow-suc}
use state_spectre.Prelude.{length, if◌then◌else◌, ltb, ◌==◌}
use state_spectre.Prelude.Slices.{take, drop}
use state_spectre.Wire.Words.{Word, U16, U32, U64, Bytes, cast}

-- What a method of `Writer` does to the buffer; `none` is a WireError.
abbrev pub Writer : Type 0
Writer = Bytes → Option Bytes

-- What a method of `Reader` takes off the front of the bytes from `p_` to `end_`; `none` is a WireError.
abbrev pub Reader {ℓ} : Type ℓ → Type ℓ
Reader A = Bytes → Option (A × Bytes)

infixl 5 ◌>>=◌ ◌>>◌
unfoldable pub ◌>>◌ : Writer → Writer → Writer
◌>>◌ v w b = elim (v b) [ none ↦ none | some b' ↦ w b' ]

unfoldable pub ◌>>=◌ {ℓ κ} : {A : Type ℓ} {B : Type κ} → Reader A → (A → Reader B) → Reader B
◌>>=◌ r k bytes = elim (r bytes) [ none ↦ none | some (a, rest) ↦ k a rest ]

unfoldable pub pure {ℓ} : {A : Type ℓ} → A → Reader A
pure a bytes = some (a, bytes)

-- the end of a block of writes
unfoldable pub done : Writer
done b = some b

-- a write that throws
unfoldable pub refuse : Writer
refuse b = none

-- a read that throws
unfoldable pub fail {ℓ} : {A : Type ℓ} → Reader A
fail bytes = none

-- the n bytes of a number, the lowest first
unfoldable pub le_bytes : ℕ → ℕ → Bytes
le_bytes zero v = []
le_bytes (suc n) v = cast 1 (v % 256) ∷ le_bytes n (v / 256)

pub word_bound : (n b v : ℕ) → b < 256 ^ 1 → v < 256 ^ n → b + 256 * v < 256 ^ suc n
word_bound n b v hb hv = omega (arith, pow-suc 256 n)

-- the number that the first n bytes hold, the lowest first; `need` rules out that there are fewer
unfoldable pub word_at : (n : ℕ) → Bytes → Word n
word_at zero bytes = cast 0 0
word_at (suc n) [] = cast (suc n) 0
word_at (suc n) (b ∷ bytes) =
    let high = word_at n bytes in
    record { value = b.value + 256 * high.value; below = word_bound n _ _ b.below high.below }

-- `put(&v, sizeof(v))`
unfoldable pub put_word : (n : ℕ) → Word n → Writer
put_word n v b = some (b ++ le_bytes n v.value)

-- `take(&v, sizeof(v))`, with its `need`
unfoldable pub get_word : (n : ℕ) → Reader (Word n)
get_word n bytes = if ltb (length bytes) n then none else some (word_at n bytes, drop n bytes)

abbrev pub put_u16 : U16 → Writer
put_u16 = put_word 2

abbrev pub put_u32 : U32 → Writer
put_u32 = put_word 4

abbrev pub put_u64 : U64 → Writer
put_u64 = put_word 8

abbrev pub get_u16 : Reader U16
get_u16 = get_word 2

abbrev pub get_u32 : Reader U32
get_u32 = get_word 4

abbrev pub get_u64 : Reader U64
get_u64 = get_word 8

-- `b(v)`: a byte, 1 or 0
unfoldable pub put_bool : Bool → Writer
put_bool v b = some (b ++ (cast 1 (if v then 1 else 0) ∷ []))

unfoldable pub get_bool : Reader Bool
get_bool [] = none
get_bool (x ∷ rest) = some (not (x.value == 0), rest)

-- the bytes of a string, after its size
unfoldable pub put_str : Bytes → Writer
put_str s b = if ltb 0xFFFFFFFF (length s) then none else some (b ++ le_bytes 4 (length s) ++ s)

-- `insert(end, s.begin(), s.end())`
unfoldable pub put_chars : Bytes → Writer
put_chars s b = some (b ++ s)

unfoldable pub get_chars : ℕ → Reader Bytes
get_chars n bytes = if ltb (length bytes) n then none else some (take n bytes, drop n bytes)

unfoldable pub get_str : Reader Bytes
get_str = get_u32 >>= λ n. get_chars n.value

-- the loop of an encoder over a vector
unfoldable pub put_each {ℓ} : {A : Type ℓ} → (A → Writer) → List A → Writer
put_each put [] = done
put_each put (x ∷ xs) = put x >> put_each put xs

-- the loop of a decoder that fills a vector of n elements
unfoldable pub get_each {ℓ} : {A : Type ℓ} → Reader A → ℕ → Reader (List A)
get_each get zero = pure []
get_each get (suc n) = do x ← get; xs ← get_each get n; pure (x ∷ xs)

-- `w.u32(static_cast<uint32_t>(xs.size()))` and the loop after it
abbrev pub put_list {ℓ} : {A : Type ℓ} → (A → Writer) → List A → Writer
put_list put xs = put_u32 (cast 4 (length xs)) >> put_each put xs

-- `uint32_t n = r.u32()` and the loop after it
abbrev pub get_list {ℓ} : {A : Type ℓ} → Reader A → Reader (List A)
get_list get = get_u32 >>= λ n. get_each get n.value

-- `decode_T(data, len)`: bytes that are left over are ignored.
unfoldable pub run_reader {ℓ} : {A : Type ℓ} → Reader A → Bytes → Option A
run_reader r bytes = elim (r bytes) [ none ↦ none | some (a, rest) ↦ some a ]
