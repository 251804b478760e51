-- ===== src/Config/Arenas.antt =====
-- src/daemon/config.cpp: the loops of load_config over the fields of a node, and its reading of
-- `arenas.per_numa` with the windows of each arena.
use state_spectre.Prelude.{ℕ, ◌^◌, List, [], ◌∷◌, if◌then◌else◌, none, some}
use state_spectre.Plan.{GpuWindowConfig, NumaArenaConfig}
use state_spectre.Config.{Text, text, Outcome, error, result, ◌>>=◌, text_eq}
use state_spectre.Config.Tree.{YamlNode, Fields, Nodes, find_field}
use state_spectre.Config.Values.{line_of, fields_of, to_u32, to_multiple}

abbrev pub mib : ℕ
mib = 2 ^ 20

abbrev pub gib : ℕ
gib = 2 ^ 30

unfoldable pub assign {ℓ κ} : {A : Type ℓ} {C : Type κ} → Outcome A → (A → C) → Outcome C
assign r f = r >>= λ a. result (f a)

-- a loop over the fields of a node
unfoldable pub set_all {ℓ} :
    {C : Type ℓ} → (Text → YamlNode → C → Outcome C) → Fields → C → Outcome C
set_all set Fields.end c = result c
set_all set (Fields.field k v rest) c = set k v c >>= set_all set rest

-- `root.find(name)`, with the loop over what it finds
unfoldable pub in_section {ℓ} :
    {C : Type ℓ} → (Text → YamlNode → C → Outcome C) → Text → Fields → C → Outcome C
in_section set name root c = elim (find_field name root) [
  | none ↦ result c
  | some node ↦ set_all set (fields_of node) c
]

unfoldable pub set_window : Text → YamlNode → GpuWindowConfig → Outcome GpuWindowConfig
set_window k v w =
    if text_eq k (text "gpu")
    then assign (to_u32 v) (λ x. record w { gpu = x })
    else if text_eq k (text "size_gb")
    then assign (to_multiple gib v) (λ x. record w { size_bytes = x })
    else result w

unfoldable pub set_arena : Text → YamlNode → NumaArenaConfig → Outcome NumaArenaConfig
set_arena k v a =
    if text_eq k (text "numa_node")
    then assign (to_u32 v) (λ x. record a { numa_node = x })
    else if text_eq k (text "size_gb")
    then assign (to_multiple gib v) (λ x. record a { size_bytes = x })
    else if text_eq k (text "overflow_gb")
    then assign (to_multiple gib v) (λ x. record a { overflow_bytes = x })
    else result a

-- an entry of gpu_windows
unfoldable pub window_of : YamlNode → Outcome GpuWindowConfig
window_of (YamlNode.mapping line fields) =
    set_all set_window fields (record { gpu = 0; size_bytes = 0 })
window_of node = error (line_of node)

-- each entry of a list in turn
unfoldable pub each {ℓ} : {C : Type ℓ} → (YamlNode → Outcome C) → Nodes → Outcome (List C)
each read Nodes.nil = result []
each read (Nodes.cons item items) = do c ← read item; cs ← each read items; result (c ∷ cs)

-- a key whose value has to be a list, if it is there
unfoldable pub list_at {ℓ} :
    {C : Type ℓ} → (YamlNode → Outcome C) → Text → Fields → Outcome (List C)
list_at read name fields = elim (find_field name fields) [
  | none ↦ result []
  | some (YamlNode.sequence line items) ↦ each read items
  | some (YamlNode.empty line) ↦ error line
  | some (YamlNode.scalar line s) ↦ error line
  | some (YamlNode.mapping line m) ↦ error line
]

-- an entry of per_numa
unfoldable pub arena_of : YamlNode → Outcome NumaArenaConfig
arena_of (YamlNode.mapping line fields) = do
  a ←
      set_all set_arena fields
        (record { numa_node = 0; size_bytes = 0; gpu_windows = []; overflow_bytes = 0 })
  windows ← list_at window_of (text "gpu_windows") fields
  result (record a { gpu_windows = windows })
arena_of node = error (line_of node)
