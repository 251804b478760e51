-- ===== src/Wire/RoundTrips/Parts.antt =====
-- The methods of `Writer` against those of `Reader`, and the shapes of the messages' codecs.
use Prim.Native.Nat.{ℕ, zero, suc, ◌/◌, ◌^◌, ◌<◌}
use mathlib.Core.Path.{◌≡◌, refl, sym, subst}
use mathlib.Core.Bool.{Bool, true, false}
use mathlib.Core.Option.{none, some}
use mathlib.Core.Logic.{inl, inr}
use mathlib.Core.List.{List, [], ◌∷◌, ◌++◌}
use native.Mathlib.Omega.{arith}
use native.Mathlib.Nat.{pow-suc}
use state_spectre.Prelude.{length, length-append, ltb, Bool-cases}
use state_spectre.Wire.Words.{Word, Byte, Bytes, cast, Word-ext}
use state_spectre.Wire.Buffer.{
  Writer, Reader, ◌>>◌, ◌>>=◌, le_bytes, word_at, put_word, get_word, put_list, get_list, put_bool,
  get_bool, put_str, put_chars, get_chars, get_str, put_each, get_each,
}
use state_spectre.Wire.RoundTrips.{
  RoundTrips, RoundTrips->>=, RoundTrips-last, RoundTrips-done, some_inj,
}
use state_spectre.Prelude.Slices.{take, drop, length-take_le, take-append, drop-append}

pub length-le_bytes : (n v : ℕ) → length (le_bytes n v) ≡ n
unfolding le_bytes
length-le_bytes zero v = refl
length-le_bytes (suc n) v = omega (arith, length-le_bytes n (v / 256))

word_at-le_bytes :
    (n v : ℕ) (rest : Bytes) → v < 256 ^ n → (word_at n (le_bytes n v ++ rest)).value ≡ v
unfolding word_at le_bytes cast
word_at-le_bytes zero v rest h = omega arith
word_at-le_bytes (suc n) v rest h =
    omega (arith, word_at-le_bytes n (v / 256) rest (omega (arith, pow-suc 256 n)))

drop-le_bytes : (n v : ℕ) (rest : Bytes) → drop n (le_bytes n v ++ rest) ≡ rest
unfolding le_bytes
drop-le_bytes zero v rest = refl
drop-le_bytes (suc n) v rest = drop-le_bytes n (v / 256) rest

get_word-le_bytes :
    (n : ℕ) (v : Word n) (rest : Bytes) → get_word n (le_bytes n v.value ++ rest) ≡ some (v, rest)
unfolding get_word
get_word-le_bytes n v rest =
    let word : word_at n (le_bytes n v.value ++ rest) ≡ v =
      Word-ext (word_at-le_bytes n v.value rest v.below) in
    let long : ltb (length (le_bytes n v.value ++ rest)) n ≡ false =
      ground (arith, length-append (le_bytes n v.value) rest, length-le_bytes n v.value) in
    rw (long, word, drop-le_bytes n v.value rest)

get_word-short : (n : ℕ) (bytes : Bytes) → length bytes < n → get_word n bytes ≡ none
unfolding get_word
get_word-short n bytes h = ground arith

pub RoundTrips-put_word : {n : ℕ} (v : Word n) → RoundTrips (put_word n v) (get_word n) v
unfolding put_word
RoundTrips-put_word {n} v = record {
  reads = λ b b' h. (
    le_bytes n v.value,
    sym (some_inj h),
    get_word-le_bytes n v,
    λ k hk.
        get_word-short n _
          (omega (arith, length-take_le k (le_bytes n v.value) hk, length-le_bytes n v.value)),
  );
}

one_byte : (x : Byte) (k : ℕ) → k < length (x ∷ []) → get_bool (take k (x ∷ [])) ≡ none
unfolding get_bool
one_byte x zero h = refl
one_byte x (suc k) h = absurd (omega arith)

pub RoundTrips-put_bool : (v : Bool) → RoundTrips (put_bool v) get_bool v
unfolding put_bool get_bool cast
RoundTrips-put_bool true = record {
  reads = λ b b' h. (_, sym (some_inj h), λ rest. refl, one_byte _);
}
RoundTrips-put_bool false = record {
  reads = λ b b' h. (_, sym (some_inj h), λ rest. refl, one_byte _);
}

-- what `get_chars` reads
get_chars-append : (s rest : Bytes) → get_chars (length s) (s ++ rest) ≡ some (s, rest)
unfolding get_chars
get_chars-append s rest =
    let long : ltb (length (s ++ rest)) (length s) ≡ false = ground (arith, length-append s rest) in
    rw (long, take-append s rest, drop-append s rest)

RoundTrips-put_chars : (s : Bytes) → RoundTrips (put_chars s) (get_chars (length s)) s
unfolding put_chars get_chars
RoundTrips-put_chars s = record {
  reads = λ b b' h.
      (s, sym (some_inj h), get_chars-append s, λ k hk. ground (arith, length-take_le k s hk));
}

-- the size that `put_str` has checked, and the wrap that it does not do
pub cast_length : (n : ℕ) → n < 256 ^ 4 → (cast 4 n).value ≡ n
unfolding cast
cast_length n h = omega arith

put_str_parts :
    (s b b' : Bytes)
    → put_str s b ≡ some b'
    → (length s < 256 ^ 4) × ((put_word 4 (cast 4 (length s)) >> put_chars s) b ≡ some b')
unfolding put_str put_word put_chars ◌>>◌
put_str_parts s b b' h = elim (Bool-cases (ltb 0xFFFFFFFF (length s))) [
  | inl e ↦ ground arith
  | inr e ↦
      let fits : length s < 256 ^ 4 = ground arith in
      let wrap : (cast 4 (length s)).value ≡ length s = cast_length (length s) fits in
      (fits, rw wrap (rw e at h))
]

-- a count, and a part that is read by that count
pub RoundTrips-counted {ℓ} :
    {C : Type ℓ} {w : Writer} {c : C} (k : ℕ → Reader C) (n : ℕ)
    → n < 256 ^ 4
    → RoundTrips w (k n) c
    → RoundTrips (put_word 4 (cast 4 n) >> w) (get_word 4 >>= λ v. k v.value) c
RoundTrips-counted {w = w} {c = c} k n fits part =
    RoundTrips->>= (λ v. k v.value) (RoundTrips-put_word (cast 4 n))
      (subst (λ t. RoundTrips w (k t) c) (sym (cast_length n fits)) part)

pub RoundTrips-put_str : (s : Bytes) → RoundTrips (put_str s) get_str s
unfolding get_str
RoundTrips-put_str s = record {
  reads = λ b b' h.
      let (fits, e) = put_str_parts s b b' h in
      (RoundTrips-counted (λ n. get_chars n) (length s) fits (RoundTrips-put_chars s)).reads b b' e;
}

pub RoundTrips-put_each {ℓ} :
    {A : Type ℓ} (put : A → Writer) (get : Reader A)
    → ((x : A) → RoundTrips (put x) get x)
    → (xs : List A) → RoundTrips (put_each put xs) (get_each get (length xs)) xs
unfolding put_each get_each
RoundTrips-put_each put get each [] = RoundTrips-done
RoundTrips-put_each put get each (x ∷ xs) =
    RoundTrips->>= _ (each x) (RoundTrips-last (λ ys. x ∷ ys) (RoundTrips-put_each put get each xs))

pub RoundTrips-put_list {ℓ} :
    {A : Type ℓ} (put : A → Writer) (get : Reader A)
    → ((x : A) → RoundTrips (put x) get x)
    → (xs : List A) → length xs < 256 ^ 4
    → RoundTrips (put_list put xs) (get_list get) xs
RoundTrips-put_list put get each xs fits =
    RoundTrips-counted (λ n. get_each get n) (length xs) fits (RoundTrips-put_each put get each xs)

-- a word, a Boolean or a string, and the rest of the message
pub word_then {ℓ} :
    {n : ℕ} {v : Word n} {C : Type ℓ} {w : Writer} {c : C} (k : Word n → Reader C)
    → RoundTrips w (k v) c
    → RoundTrips (put_word n v >> w) (get_word n >>= k) c
word_then {v = v} k rest = RoundTrips->>= k (RoundTrips-put_word v) rest

pub bool_then {ℓ} :
    {v : Bool} {C : Type ℓ} {w : Writer} {c : C} (k : Bool → Reader C)
    → RoundTrips w (k v) c
    → RoundTrips (put_bool v >> w) (get_bool >>= k) c
bool_then {v = v} k rest = RoundTrips->>= k (RoundTrips-put_bool v) rest

pub str_then {ℓ} :
    {s : Bytes} {C : Type ℓ} {w : Writer} {c : C} (k : Bytes → Reader C)
    → RoundTrips w (k s) c
    → RoundTrips (put_str s >> w) (get_str >>= k) c
str_then {s = s} k rest = RoundTrips->>= k (RoundTrips-put_str s) rest
