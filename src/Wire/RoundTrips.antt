-- ===== src/Wire/RoundTrips.antt =====
-- What an encoder and its decoder owe each other, and how a message owes it if its parts do.
pub mod Parts
use Prim.Native.Nat.{ℕ, zero, suc, ◌+◌, ◌-◌, ◌*◌, ◌/◌, ◌%◌, ◌^◌, ◌≤◌, ◌<◌}
use mathlib.Core.Path.{◌≡◌, refl, sym, ap, ◌∙◌, subst}
use mathlib.Core.Bool.{Bool, true, false}
use mathlib.Core.Option.{Option, none, some}
use mathlib.Core.Logic.{◌⊎◌, inl, inr}
use mathlib.Core.List.{List, [], ◌∷◌, ◌++◌, append_assoc, append-nil}
use native.Mathlib.Decide.{dec_lt}
use native.Mathlib.Omega.{arith}
use native.Mathlib.Nat.{pow-suc}
use state_spectre.Prelude.{length, length-append, ltb, Option-cases, Bool-cases}
use state_spectre.Wire.Words.{Word, Byte, Bytes, U32, cast, cast-value, Word-ext}
use state_spectre.Wire.Buffer.{
  Writer, Reader, ◌>>◌, ◌>>=◌, pure, done, le_bytes, word_at, put_word, get_word, put_list,
  get_list, put_bool, get_bool, put_str, put_chars, get_chars, get_str, put_each, get_each,
  run_reader,
}
use state_spectre.Prelude.Slices.{take, drop, take_within, take_past, length-take_le}

-- Whatever `w` appends, `r` reads `a` from it and leaves what follows, and refuses each proper prefix.
pub record RoundTrips {ℓ} {A : Type ℓ} (w : Writer) (r : Reader A) (a : A) : Type ℓ where
  pub reads :
      (b b' : Bytes)
      → w b ≡ some b'
      → (out : Bytes) × (b' ≡ b ++ out)
        × ((rest : Bytes) → r (out ++ rest) ≡ some (a, rest))
        × ((k : ℕ) → k < length out → r (take k out) ≡ none)

-- a read whose first part fails, or succeeds
bind_none {ℓ κ} :
    {A : Type ℓ} {B : Type κ} (r : Reader A) (k : A → Reader B) (bytes : Bytes)
    → r bytes ≡ none
    → (r >>= k) bytes ≡ none
unfolding ◌>>=◌
bind_none r k bytes e = rw (e, ◌>>=◌)

bind_some {ℓ κ} :
    {A : Type ℓ} {B : Type κ} (r : Reader A) (k : A → Reader B) (bytes rest : Bytes) (a : A)
    → r bytes ≡ some (a, rest)
    → (r >>= k) bytes ≡ k a rest
unfolding ◌>>=◌
bind_some r k bytes rest a e = rw (e, ◌>>=◌)

pub run_reader-some {ℓ} :
    {A : Type ℓ} (r : Reader A) (bytes rest : Bytes) (a : A)
    → r bytes ≡ some (a, rest)
    → run_reader r bytes ≡ some a
unfolding run_reader
run_reader-some r bytes rest a e = rw (e, run_reader)

pub run_reader-none {ℓ} :
    {A : Type ℓ} (r : Reader A) (bytes : Bytes) → r bytes ≡ none → run_reader r bytes ≡ none
unfolding run_reader
run_reader-none r bytes e = rw (e, run_reader)

>>-eq-some :
    (v w : Writer) (b b' : Bytes)
    → (v >> w) b ≡ some b'
    → (mid : Bytes) × (v b ≡ some mid) × (w mid ≡ some b')
unfolding ◌>>◌
>>-eq-some v w b b' h = elim (Option-cases (v b)) [
  | inl e ↦ ground arith
  | inr (mid, e) ↦ (mid, e, ground arith)
]

refuses {ℓ κ} :
    {A : Type ℓ} {B : Type κ} (r : Reader A) (k : A → Reader B) (xs ys : Bytes) (a : A)
    → ((rest : Bytes) → r (xs ++ rest) ≡ some (a, rest))
    → ((n : ℕ) → n < length xs → r (take n xs) ≡ none)
    → ((n : ℕ) → n < length ys → k a (take n ys) ≡ none)
    → (n : ℕ) → n < length (xs ++ ys)
    → length (xs ++ ys) ≡ length xs + length ys
    → (r >>= k) (take n (xs ++ ys)) ≡ none
refuses r k xs ys a whole cut₁ cut₂ n hn e = elim (dec_lt n (length xs)) [
  | yes h ↦ ap (r >>= k) (take_within n xs ys h) ∙ bind_none r k (take n xs) (cut₁ n h)
  | no h ↦
      ap (r >>= k) (take_past n xs ys (omega arith))
      ∙ bind_some r k _ _ a (whole (take (n - length xs) ys))
      ∙ cut₂ (n - length xs) (omega arith)
]

pub RoundTrips->>= {ℓ κ} :
    {A : Type ℓ} {B : Type κ} {v w : Writer} {r : Reader A} {a : A} {c : B} (k : A → Reader B)
    → RoundTrips v r a
    → RoundTrips w (k a) c
    → RoundTrips (v >> w) (r >>= k) c
RoundTrips->>= {v = v} {w = w} {r = r} {a = a} {c = c} k first second = record {
  reads = λ b b' h.
      let (mid, e₁, e₂) = >>-eq-some v w b b' h in
      let (out₁, p₁, whole₁, cut₁) = first.reads b mid e₁ in
      let (out₂, p₂, whole₂, cut₂) = second.reads mid b' e₂ in
      (
        out₁ ++ out₂,
        p₂ ∙ ap (λ t. t ++ out₂) p₁ ∙ append_assoc b out₁ out₂,
        λ rest.
            ap (r >>= k) (append_assoc out₁ out₂ rest)
            ∙ bind_some r k _ _ a (whole₁ (out₂ ++ rest))
            ∙ whole₂ rest,
        λ n hn. refuses r k _ _ a whole₁ cut₁ cut₂ n hn (length-append out₁ out₂),
      );
}

abbrev from_some {ℓ} : {A : Type ℓ} → Option A → A → A
from_some none d = d
from_some (some a) d = a

pub some_inj {ℓ} : {A : Type ℓ} {a b : A} → some a ≡ some b → a ≡ b
some_inj {a = a} e = ap (λ o. from_some o a) e

pub RoundTrips-done {ℓ} : {A : Type ℓ} {a : A} → RoundTrips done (pure a) a
unfolding done pure
RoundTrips-done {a = a} = record {
  reads = λ b b' h.
      ([], sym (some_inj h) ∙ sym (append-nil b), λ rest. refl, λ k hk. absurd (omega arith));
}

-- the last part of an encoder, and a decoder that ends there
pub RoundTrips-last {ℓ κ} :
    {A : Type ℓ} {B : Type κ} {w : Writer} {r : Reader A} {a : A} (f : A → B)
    → RoundTrips w r a
    → RoundTrips w (r >>= λ x. pure (f x)) (f a)
unfolding pure
RoundTrips-last {r = r} f part = record {
  reads = λ b b' h.
      let (out, p, whole, cut) = part.reads b b' h in
      (out, p, λ rest. bind_some r _ _ rest _ (whole rest), λ n hn. bind_none r _ _ (cut n hn));
}
