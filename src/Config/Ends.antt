-- ===== src/Config/Ends.antt =====
-- src/daemon/config.cpp: a file is read to its end or refused.
use state_spectre.Prelude.{ℕ, suc, ◌≢◌, refl, List, [], ◌∷◌, arith, inl, inr}
use state_spectre.Config.{Text, Outcome, error, no_fuel, result, ◌>>=◌}
use state_spectre.Config.Text.{
  SrcLine, tokenize, tokenize_from, source_line, split_lines, rstrip, strip, strip_comment,
}
use state_spectre.Config.Tree.{YamlNode, node_fuel}
use state_spectre.Config.Fuel.{Fits, text_cases, node_enough}
use state_spectre.Config.Load.{root_of, parse_lines, parse_file}

source_line-ends : (lineno : ℕ) (trimmed : Text) → source_line lineno trimmed ≢ no_fuel
unfolding source_line
source_line-ends lineno trimmed h = ground arith

bind-ends :
    {A : Type 0} {B : Type 0} (r : Outcome A) (k : A → Outcome B)
    → r ≢ no_fuel
    → ((a : A) → k a ≢ no_fuel)
    → (r >>= k) ≢ no_fuel
unfolding ◌>>=◌
bind-ends (error line) k hr hk h = ground arith
bind-ends no_fuel k hr hk h = hr refl
bind-ends (result a) k hr hk h = hk a h

tokenize_from-ends : (lineno : ℕ) (raws : List Text) → tokenize_from lineno raws ≢ no_fuel
unfolding tokenize_from ◌>>=◌
tokenize_from-ends lineno [] = λ h. ground arith
tokenize_from-ends lineno (raw ∷ raws) = elim (text_cases (strip (rstrip (strip_comment raw)))) [
  | inl blank ↦ rw (tokenize_from, blank) (tokenize_from-ends (suc lineno) raws)
  | inr (c, cs, full) ↦
      rw (tokenize_from, full)
        (bind-ends _ _ (source_line-ends (suc lineno) (rstrip (strip_comment raw)))
          (λ line. bind-ends _ _ (tokenize_from-ends (suc lineno) raws) (λ lines h. ground arith)))
]

root_of-ends : (w : ℕ) (r : Outcome (YamlNode × List SrcLine)) → Fits w r → root_of r ≢ no_fuel
unfolding root_of
root_of-ends w (error line) fits h = ground arith
root_of-ends w no_fuel fits h = fits
root_of-ends w (result (node, l ∷ ls)) fits h = ground arith
root_of-ends w (result (YamlNode.mapping line fields, [])) fits h = ground arith
root_of-ends w (result (YamlNode.empty line, [])) fits h = ground arith
root_of-ends w (result (YamlNode.scalar line s, [])) fits h = ground arith
root_of-ends w (result (YamlNode.sequence line nodes, [])) fits h = ground arith

parse_lines-ends : (ls : List SrcLine) → parse_lines ls ≢ no_fuel
unfolding parse_lines
parse_lines-ends [] h = ground arith
parse_lines-ends (l ∷ ls) h =
    root_of-ends _ _ (node_enough (node_fuel (l ∷ ls)) l.indent (l ∷ ls) (omega arith)) h

-- The recursion of the configuration parser ends on every text: with three rounds for each line and
-- each character of a line, and two more, it never runs out of fuel, so every file is parsed to its
-- end or refused.
pub parse_file-ends : (content : Text) → parse_file content ≢ no_fuel
unfolding parse_file tokenize
parse_file-ends content =
    bind-ends _ _ (tokenize_from-ends 0 (split_lines content)) parse_lines-ends
