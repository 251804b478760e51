-- ===== src/Config/Tree.antt =====
-- The tree of a configuration file: `YamlNode`, parse_node, parse_map and parse_seq of
-- src/daemon/config.cpp. The lines from the index `i` on are the list that a function takes and
-- gives back.
use state_spectre.Prelude.{
  ℕ, zero, suc, ◌+◌, ◌*◌, List, [], ◌∷◌, length, Bool, true, false, ◌&&◌, not, ◌==◌, ltb,
  if◌then◌else◌, Option, none, some,
}
use state_spectre.Config.{Text, Outcome, error, no_fuel, result, ◌>>=◌, text_eq, text_less}
use state_spectre.Config.Text.{SrcLine, strip, spaces, skip}

-- `kind`, each with its line and what the node holds
mutual
  pub data YamlNode : Type 0 where
    empty : ℕ → YamlNode
    scalar : ℕ → Text → YamlNode
    mapping : ℕ → Fields → YamlNode
    sequence : ℕ → Nodes → YamlNode

  -- a std::map, its keys ascending
  pub data Fields : Type 0 where
    end : Fields
    field : Text → YamlNode → Fields → Fields

  pub data Nodes : Type 0 where
    nil : Nodes
    cons : YamlNode → Nodes → Nodes

-- `node.map[key] = child`
unfoldable pub set_field : Text → YamlNode → Fields → Fields
set_field key child end = field key child end
set_field key child (field k v rest) =
    let more = set_field key child rest in
    if text_eq key k
    then field k child rest
    else if text_less key k
    then field key child (field k v rest)
    else field k v more

unfoldable pub find_field : Text → Fields → Option YamlNode
find_field key end = none
find_field key (field k v rest) =
    let found = find_field key rest in if text_eq key k then some v else found

-- an item of a list: "- " and more, or "-"
unfoldable pub is_item : Text → Bool
is_item [] = false
is_item (c ∷ []) = c == 45
is_item (c ∷ d ∷ cs) = c == 45 && d == 32

abbrev after_char : ℕ → Option (Text × Text) → Option (Text × Text)
after_char c none = none
after_char c (some (k, v)) = some (c ∷ k, v)

-- what stands before the first ':' and after it
unfoldable pub split_colon : Text → Option (Text × Text)
split_colon [] = none
split_colon (c ∷ cs) =
    let later = after_char c (split_colon cs) in if c == 58 then some ([], cs) else later

-- the column at which the content of an item begins
unfoldable pub content_column : Text → ℕ
content_column t = suc (spaces (skip 1 t))

-- the line as if the content of the item were all of it
unfoldable pub item_line : ℕ → SrcLine → SrcLine
item_line indent l =
    let c = content_column l.text in
    record { indent = indent + c; lineno = l.lineno; text = skip c l.text }

unfoldable mutual
  pub parse_node : ℕ → ℕ → List SrcLine → Outcome (YamlNode × List SrcLine)
  parse_node zero indent ls = no_fuel
  parse_node (suc f) indent [] = result (empty 0, [])
  parse_node (suc f) indent (l ∷ ls) = elim (is_item l.text) [
    | true ↦ do (nodes, rest) ← parse_seq f indent (l ∷ ls); result (sequence l.lineno nodes, rest)
    | false ↦ elim (split_colon l.text) [
      | none ↦ result (scalar l.lineno (strip l.text), ls)
      | some kv ↦ do
        (fields, rest) ← parse_map f indent end (l ∷ ls)
        result (mapping l.lineno fields, rest)
    ]
  ]

  -- the loop of parse_map, with the fields so far
  pub parse_map : ℕ → ℕ → Fields → List SrcLine → Outcome (Fields × List SrcLine)
  parse_map zero indent fields ls = no_fuel
  parse_map (suc f) indent fields [] = result (fields, [])
  parse_map (suc f) indent fields (l ∷ ls) = elim (l.indent == indent && not (is_item l.text)) [
    | false ↦ result (fields, l ∷ ls)
    | true ↦ elim (split_colon l.text) [
      | none ↦ error l.lineno
      | some (k, v) ↦ elim (strip v) [
        | [] ↦ do
          (child, rest) ← parse_block f indent l.lineno ls
          parse_map f indent (set_field (strip k) child fields) rest
        | c ∷ cs ↦ parse_map f indent (set_field (strip k) (scalar l.lineno (c ∷ cs)) fields) ls
      ]
    ]
  ]

  -- the loop of parse_seq
  pub parse_seq : ℕ → ℕ → List SrcLine → Outcome (Nodes × List SrcLine)
  parse_seq zero indent ls = no_fuel
  parse_seq (suc f) indent [] = result (nil, [])
  parse_seq (suc f) indent (l ∷ ls) = elim (l.indent == indent && is_item l.text) [
    | false ↦ result (nil, l ∷ ls)
    | true ↦ elim (skip (content_column l.text) l.text) [
      | [] ↦ do
        (child, rest) ← parse_block f indent l.lineno ls
        (more, last) ← parse_seq f indent rest
        result (cons child more, last)
      | c ∷ cs ↦ do
        (child, rest) ← parse_node f (indent + content_column l.text) (item_line indent l ∷ ls)
        (more, last) ← parse_seq f indent rest
        result (cons child more, last)
    ]
  ]

  -- the block under a line, if the next one is indented more
  pub parse_block : ℕ → ℕ → ℕ → List SrcLine → Outcome (YamlNode × List SrcLine)
  parse_block zero indent lineno ls = no_fuel
  parse_block (suc f) indent lineno [] = result (empty lineno, [])
  parse_block (suc f) indent lineno (l ∷ ls) = elim (ltb indent l.indent) [
    | true ↦ parse_node f l.indent (l ∷ ls)
    | false ↦ result (empty lineno, l ∷ ls)
  ]

-- the lines and their characters
unfoldable pub weight : List SrcLine → ℕ
weight [] = 0
weight (l ∷ ls) = suc (length l.text) + weight ls

-- fuel for a node at the first of the lines
abbrev pub node_fuel : List SrcLine → ℕ
node_fuel ls = 3 * weight ls + 2
