-- ===== src/Config/Load.antt =====
-- src/daemon/config.cpp: load_config. A path stands for what opening its file gives, `none` if it
-- cannot be opened.
use state_spectre.Prelude.{ℕ, ◌^◌, List, [], ◌∷◌, if◌then◌else◌, Option, none, some}
use state_spectre.Plan.{config_valid}
use state_spectre.Config.{Text, Outcome, error, no_fuel, result, ◌>>=◌}
use state_spectre.Config.Text.{SrcLine, tokenize}
use state_spectre.Config.Tree.{YamlNode, Fields, parse_node, node_fuel}
use state_spectre.Config.Daemon.{DaemonConfig, defaults, default_smoke_config}
use state_spectre.Config.Sections.{set_sections}

-- what parse_node gives has to be a mapping that ends with the file
unfoldable pub root_of : Outcome (YamlNode × List SrcLine) → Outcome Fields
root_of (error line) = error line
root_of no_fuel = no_fuel
root_of (result (node, l ∷ ls)) = error l.lineno
root_of (result (YamlNode.mapping line fields, [])) = result fields
root_of (result (YamlNode.empty line, [])) = error 0
root_of (result (YamlNode.scalar line s, [])) = error 0
root_of (result (YamlNode.sequence line nodes, [])) = error 0

unfoldable pub parse_lines : List SrcLine → Outcome Fields
parse_lines [] = error 0
parse_lines (l ∷ ls) = root_of (parse_node (node_fuel (l ∷ ls)) l.indent (l ∷ ls))

-- the fields of the top level
unfoldable pub parse_file : Text → Outcome Fields
parse_file content = tokenize content >>= parse_lines

-- `hundredths`, `stod` and `scaled` are those of Daemon and Values.
module _ (Double : Type 0) (hundredths : ℕ → Double) (stod : Text → Option (Double × ℕ))
    (scaled : Double → ℕ → ℕ) where
  -- the checks at the end
  unfoldable pub validate : DaemonConfig Double → Outcome (DaemonConfig Double)
  validate c = if config_valid c.allocation_granularity_bytes c.per_numa then result c else error 0

  unfoldable pub load_file : Option Text → Outcome (DaemonConfig Double)
  load_file none = error 0
  load_file (some content) = do
    root ← parse_file content
    c ← set_sections Double stod scaled root (defaults Double hundredths)
    validate c

  unfoldable pub load_config : Text → Option Text → Outcome (DaemonConfig Double)
  load_config [] file = result (default_smoke_config Double hundredths (2 ^ 28) 0 0)
  load_config (c ∷ path) file = load_file file
