-- ===== src/Config/Fuel.antt =====
-- src/daemon/config.cpp: the parser's recursion ends.
use state_spectre.Prelude.{
  ℕ, zero, suc, ◌+◌, ◌*◌, ◌≤◌, ◌≡◌, refl, List, [], ◌∷◌, length, Bool, true, false, ◌&&◌, not, ◌==◌,
  ltb, arith, ◌⊎◌, inl, inr, Bool-cases, Option-cases,
}
use state_spectre.Config.{Text, Outcome, error, no_fuel, result, ◌>>=◌}
use state_spectre.Config.Text.{SrcLine, strip, spaces, skip}
use state_spectre.Config.Tree.{
  Fields, is_item, split_colon, content_column, item_line, parse_node, parse_map, parse_seq,
  parse_block, weight,
}

-- The call did not run out of fuel, and what it leaves of the lines weighs at most w.
abbrev pub Fits {ℓ} : {A : Type ℓ} → ℕ → Outcome (A × List SrcLine) → Type 0
Fits w (error line) = Unit {0}
Fits w no_fuel = ⊥
Fits w (result (a, rest)) = weight rest ≤ w

Fits-bind {ℓ κ} :
    {A : Type ℓ} {B : Type κ} {w : ℕ} (v : ℕ) (r : Outcome (A × List SrcLine))
    (k : A × List SrcLine → Outcome (B × List SrcLine))
    → Fits w r
    → ((a : A) (rest : List SrcLine) → weight rest ≤ w → Fits v (k (a, rest)))
    → Fits v (r >>= k)
unfolding ◌>>=◌
Fits-bind v (error line) k h next = tt
Fits-bind v no_fuel k h next = h
Fits-bind v (result (a, rest)) k h next = next a rest h

le_Fits {ℓ} : {A : Type ℓ} {v w : ℕ} (r : Outcome (A × List SrcLine)) → v ≤ w → Fits v r → Fits w r
le_Fits (error line) le h = tt
le_Fits no_fuel le h = h
le_Fits (result (a, rest)) le h = omega arith

pub text_cases : (s : Text) → (s ≡ []) ⊎ ((c : ℕ) × (cs : Text) × (s ≡ c ∷ cs))
text_cases [] = inl refl
text_cases (c ∷ cs) = inr (c, cs, refl)

length-skip : (n : ℕ) (s : Text) → length (skip n s) ≤ length s
unfolding skip
length-skip zero s = omega arith
length-skip (suc n) [] = omega arith
length-skip (suc n) (c ∷ cs) = omega (arith, length-skip n cs)

suc_le : {m n : ℕ} → m ≤ n → suc m ≤ suc n
suc_le h = omega arith

-- the content of an item is shorter than its line
skip-item : (t : Text) → is_item t ≡ true → suc (length (skip (content_column t) t)) ≤ length t
unfolding content_column is_item skip
skip-item [] h = absurd (ground arith)
skip-item (c ∷ cs) h = suc_le (length-skip (spaces cs) cs)

and-right : (a b : Bool) → (a && b) ≡ true → b ≡ true
and-right true b h = h
and-right false b h = absurd (ground arith)

mutual
  unfolding parse_node parse_map parse_seq parse_block weight item_line

  pub node_enough :
      (f indent : ℕ) (ls : List SrcLine)
      → 3 * weight ls + 2 ≤ f
      → Fits (weight ls) (parse_node f indent ls)
  node_enough zero indent ls h = absurd (omega arith)
  node_enough (suc f) indent [] h = omega arith
  node_enough (suc f) indent (l ∷ ls) h = elim (Bool-cases (is_item l.text)) [
    | inl item ↦
        rw (Fits, item)
          (Fits-bind _ _ _ (seq_enough f indent (l ∷ ls) (omega arith)) (λ nodes rest fits. fits))
    | inr plain ↦ elim (Option-cases (split_colon l.text)) [
      | inl bare ↦ rw (Fits, plain, bare) (omega arith)
      | inr (kv, split) ↦
          rw (Fits, plain, split)
            (Fits-bind _ _ _ (map_enough f indent Fields.end (l ∷ ls) (omega arith))
              (λ fields rest fits. fits))
    ]
  ]

  map_enough :
      (f indent : ℕ) (fields : Fields) (ls : List SrcLine)
      → 3 * weight ls + 1 ≤ f
      → Fits (weight ls) (parse_map f indent fields ls)
  map_enough zero indent fields ls h = absurd (omega arith)
  map_enough (suc f) indent fields [] h = omega arith
  map_enough (suc f) indent fields (l ∷ ls) h =
      elim (Bool-cases (l.indent == indent && not (is_item l.text))) [
        | inr past ↦ rw (Fits, past) (omega arith)
        | inl here ↦ elim (Option-cases (split_colon l.text)) [
          | inl bare ↦ rw (Fits, here, bare) tt
          | inr (kv, split) ↦ elim (text_cases (strip kv.1)) [
            | inl blank ↦
                rw (Fits, here, split, blank)
                  (Fits-bind _ _ _ (block_enough f indent l.lineno ls (omega arith))
                    (λ child rest fits.
                      le_Fits _ (omega arith) (map_enough f indent _ rest (omega arith))))
            | inr (c, cs, value) ↦
                rw (Fits, here, split, value)
                  (le_Fits _ (omega arith) (map_enough f indent _ ls (omega arith)))
          ]
        ]
      ]

  seq_enough :
      (f indent : ℕ) (ls : List SrcLine)
      → 3 * weight ls + 1 ≤ f
      → Fits (weight ls) (parse_seq f indent ls)
  seq_enough zero indent ls h = absurd (omega arith)
  seq_enough (suc f) indent [] h = omega arith
  seq_enough (suc f) indent (l ∷ ls) h = elim (Bool-cases (l.indent == indent && is_item l.text)) [
    | inr past ↦ rw (Fits, past) (omega arith)
    | inl here ↦ elim (text_cases (skip (content_column l.text) l.text)) [
      | inl blank ↦
          rw (Fits, here, blank)
            (Fits-bind _ _ _ (block_enough f indent l.lineno ls (omega arith)) (λ child rest fits.
              Fits-bind _ _ _ (seq_enough f indent rest (omega arith))
                (λ more last fits'. omega arith)))
      | inr (c, cs, value) ↦
          let shorter = skip-item l.text (and-right (l.indent == indent) (is_item l.text) here) in
          rw (Fits, here, value)
            (Fits-bind _ _ _
              (node_enough f (indent + content_column l.text) (item_line indent l ∷ ls)
                (omega arith))
              (λ child rest fits.
                Fits-bind _ _ _ (seq_enough f indent rest (omega arith))
                  (λ more last fits'. omega arith)))
    ]
  ]

  block_enough :
      (f indent lineno : ℕ) (ls : List SrcLine)
      → 3 * weight ls + 3 ≤ f
      → Fits (weight ls) (parse_block f indent lineno ls)
  block_enough zero indent lineno ls h = absurd (omega arith)
  block_enough (suc f) indent lineno [] h = omega arith
  block_enough (suc f) indent lineno (l ∷ ls) h = elim (Bool-cases (ltb indent l.indent)) [
    | inl deeper ↦ rw (Fits, deeper) (node_enough f l.indent (l ∷ ls) (omega arith))
    | inr level ↦ rw (Fits, level) (omega arith)
  ]
