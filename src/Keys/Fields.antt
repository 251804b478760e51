-- ===== src/Keys/Fields.antt =====
-- src/daemon/canonical.cpp: the fields that append_u64 and append_i64 write, and their reading.
use state_spectre.Prelude.{
  ℕ, zero, suc, ◌+◌, ◌-◌, ◌*◌, ◌/◌, ◌%◌, ◌^◌, ◌<◌, ◌≡◌, refl, sym, ap, ◌∙◌, inl, inr, Bool, true,
  false, List, [], ◌∷◌, ◌++◌, ltb, leb, ◌&&◌, if◌then◌else◌, arith, Bool-cases,
}
use state_spectre.Keys.{digits_before, decimal, u64_field, i64_field}

-- Read digits up to the first other character; `n` is what was read so far.
read_digits : ℕ → List ℕ → ℕ × List ℕ
read_digits n [] = (n, [])
read_digits n (c ∷ cs) =
    let rest = read_digits (n * 10 + (c - 48)) cs in
    if leb 48 c && ltb c 58 then rest else (n, c ∷ cs)

abbrev starts_with_digit : List ℕ → Bool
starts_with_digit [] = false
starts_with_digit (c ∷ cs) = leb 48 c

pow10_suc : (f : ℕ) → 10 ^ suc f ≡ 10 * 10 ^ f
pow10_suc f = ground arith

read-digits_before :
    (f n : ℕ) (acc : List ℕ)
    → n < 10 ^ f
    → read_digits 0 (digits_before f n acc) ≡ read_digits n acc
unfolding digits_before read_digits
read-digits_before zero n acc h = ground arith
read-digits_before (suc f) n acc h = elim (Bool-cases (ltb n 10)) [
  | inl small ↦ ground arith
  | inr big ↦
      ground
        (arith, read-digits_before f (n / 10) ((48 + n % 10) ∷ acc) (omega (arith, h, pow10_suc f)))
]

starts-digits_before :
    (f n : ℕ) (acc : List ℕ)
    → starts_with_digit acc ≡ true
    → starts_with_digit (digits_before f n acc) ≡ true
unfolding digits_before
starts-digits_before zero n acc h = h
starts-digits_before (suc f) n acc h =
    ground (arith, starts-digits_before f (n / 10) ((48 + n % 10) ∷ acc))

append-digits_before :
    (f n : ℕ) (acc y : List ℕ) → digits_before f n acc ++ y ≡ digits_before f n (acc ++ y)
unfolding digits_before
append-digits_before zero n acc y = refl
append-digits_before (suc f) n acc y =
    ground (arith, append-digits_before f (n / 10) ((48 + n % 10) ∷ acc) y)

append-append : (xs ys zs : List ℕ) → (xs ++ ys) ++ zs ≡ xs ++ (ys ++ zs)
append-append [] ys zs = refl
append-append (x ∷ xs) ys zs = ap (λ w. x ∷ w) (append-append xs ys zs)

field_lem : (n : ℕ) (x : List ℕ) → u64_field n ++ x ≡ digits_before 20 n (58 ∷ x)
unfolding decimal
field_lem n x = append-append (decimal n) (58 ∷ []) x ∙ append-digits_before 20 n [] (58 ∷ x)

read-field : (n : ℕ) (x : List ℕ) → n < 2 ^ 64 → read_digits 0 (u64_field n ++ x) ≡ (n, 58 ∷ x)
unfolding read_digits
read-field n x h =
    ap (λ t. read_digits 0 t) (field_lem n x) ∙ read-digits_before 20 n (58 ∷ x) (omega (arith, h))

abbrev behind : List ℕ → List ℕ
behind [] = []
behind (c ∷ cs) = cs

-- Two texts that begin with a 64-bit field are equal only if the fields and what follows them are.
pub u64_field-split :
    (a b : ℕ) (x y : List ℕ)
    → a < 2 ^ 64
    → b < 2 ^ 64
    → u64_field a ++ x ≡ u64_field b ++ y
    → (a ≡ b) × (x ≡ y)
u64_field-split a b x y ha hb e =
    let same : (a, 58 ∷ x) ≡ (b, 58 ∷ y) =
      sym (read-field a x ha) ∙ ap (λ t. read_digits 0 t) e ∙ read-field b y hb in
    (ap (λ p. p.0) same, ap (λ p. behind p.1) same)

starts-field : (n : ℕ) (x : List ℕ) → starts_with_digit (u64_field n ++ x) ≡ true
starts-field n x = ap starts_with_digit (field_lem n x) ∙ starts-digits_before 20 n (58 ∷ x) refl

-- the same for a signed 32-bit field
pub i64_field-split :
    (a b : ℕ) (x y : List ℕ)
    → a < 2 ^ 32
    → b < 2 ^ 32
    → i64_field a ++ x ≡ i64_field b ++ y
    → (a ≡ b) × (x ≡ y)
i64_field-split a b x y ha hb e = elim (Bool-cases (ltb a (2 ^ 31))) [
  | inl plus ↦ elim (Bool-cases (ltb b (2 ^ 31))) [
    | inl plus' ↦ u64_field-split a b x y (omega arith) (omega arith) (rw (plus, plus') at e)
    | inr minus ↦ absurd (
        let mixed = rw (plus, minus) at e in
        ground (arith, ap starts_with_digit mixed, starts-field a x))
  ]
  | inr minus ↦ elim (Bool-cases (ltb b (2 ^ 31))) [
    | inl plus ↦ absurd (
        let mixed = rw (plus, minus) at e in
        ground (arith, ap starts_with_digit mixed, starts-field b y))
    | inr minus' ↦
        let (same, rest) =
          u64_field-split (2 ^ 32 - a) (2 ^ 32 - b) x y (omega arith) (omega arith)
            (ap behind (rw (minus, minus') at e)) in
        (ground (arith, same, minus, minus'), rest)
  ]
]
