-- ===== src/Config/Values.antt =====
-- src/daemon/config.cpp: the scalar conversions to_u64, to_double, to_bool, to_str, to_bytes, and
-- the names of tiers, dedup modes and transports. std::stod and the arithmetic of doubles are
-- parameters.
use state_spectre.Prelude.{
  ℕ, suc, ◌+◌, ◌-◌, ◌*◌, ◌%◌, ◌^◌, List, [], ◌∷◌, Bool, true, false, ◌&&◌, ◌||◌, not, ◌==◌, leb,
  if◌then◌else◌, length, Option, none, some,
}
use state_spectre.Config.{Text, text, Outcome, error, result, ◌>>=◌, text_eq}
use state_spectre.Config.Text.{skip}
use state_spectre.Config.Tree.{YamlNode, Fields, Nodes}

-- `n.line`, `n.scalar`, `n.map` and `n.seq`, which are empty in a node of another kind
abbrev pub line_of : YamlNode → ℕ
line_of (YamlNode.empty line) = line
line_of (YamlNode.scalar line s) = line
line_of (YamlNode.mapping line fields) = line
line_of (YamlNode.sequence line nodes) = line

abbrev pub scalar_of : YamlNode → Text
scalar_of (YamlNode.scalar line s) = s
scalar_of node = []

abbrev pub fields_of : YamlNode → Fields
fields_of (YamlNode.mapping line fields) = fields
fields_of node = Fields.end

abbrev pub nodes_of : YamlNode → Nodes
nodes_of (YamlNode.sequence line nodes) = nodes
nodes_of node = Nodes.nil

unfoldable pub to_str : YamlNode → Outcome Text
to_str (YamlNode.scalar line s) = result s
to_str node = error (line_of node)

-- std::isspace
abbrev is_space : ℕ → Bool
is_space c = c == 32 || leb 9 c && leb c 13

unfoldable pub skip_space : Text → Text
skip_space [] = []
skip_space (c ∷ cs) = let rest = skip_space cs in if is_space c then rest else c ∷ cs

-- the digits at the front, after the number n, and how many of them there are
unfoldable pub take_digits : ℕ → ℕ → Text → ℕ × ℕ × Text
take_digits count n [] = (count, n, [])
take_digits count n (c ∷ cs) =
    let more = take_digits (suc count) (n * 10 + (c - 48)) cs in
    if leb 48 c && leb c 57 then more else (count, n, c ∷ cs)

-- the sign at the front, true if it is '-'
abbrev take_sign : Text → Bool × Text
take_sign [] = (false, [])
take_sign (c ∷ cs) =
    if c == 45 then (true, cs) else if c == 43 then (false, cs) else (false, c ∷ cs)

-- std::stoll that has to read all of the text a number that is not negative
unfoldable pub stoll : Text → Option ℕ
stoll s =
    let signed = take_sign (skip_space s) in
    let read = take_digits 0 0 signed.1 in
    if read.0 == 0
    then none
    else if not (length read.2 == 0)
    then none
    else if signed.0 && not (read.1 == 0)
    then none
    else if leb (2 ^ 63) read.1
    then none
    else some read.1

unfoldable pub to_u64 : YamlNode → Outcome ℕ
to_u64 (YamlNode.scalar line s) = elim (stoll s) [ none ↦ error line | some v ↦ result v ]
to_u64 node = error (line_of node)

-- static_cast<uint32_t>
unfoldable pub to_u32 : YamlNode → Outcome ℕ
to_u32 node = to_u64 node >>= λ v. result (v % 2 ^ 32)

-- `to_u64(v, k) * unit`
unfoldable pub to_multiple : ℕ → YamlNode → Outcome ℕ
to_multiple unit node = to_u64 node >>= λ v. result (v * unit % 2 ^ 64)

-- std::tolower
unfoldable pub to_lower : Text → Text
to_lower [] = []
to_lower (c ∷ cs) = (if leb 65 c && leb c 90 then c + 32 else c) ∷ to_lower cs

-- the text is one of these
unfoldable pub one_of : List Text → Text → Bool
one_of [] s = false
one_of (name ∷ names) s = text_eq s name || one_of names s

unfoldable pub bool_of : ℕ → Text → Outcome Bool
bool_of line s =
    if one_of (text "true" ∷ text "yes" ∷ text "on" ∷ text "1" ∷ []) s
    then result true
    else if one_of (text "false" ∷ text "no" ∷ text "off" ∷ text "0" ∷ []) s
    then result false
    else error line

unfoldable pub to_bool : YamlNode → Outcome Bool
to_bool (YamlNode.scalar line s) = bool_of line (to_lower s)
to_bool node = error (line_of node)

pub data DrainTarget : Type 0 where
  pageable_only : DrainTarget
  nvme_only : DrainTarget
  pageable_then_nvme : DrainTarget

unfoldable pub parse_target : ℕ → Text → Outcome DrainTarget
parse_target line s =
    if text_eq s (text "pageable_then_nvme")
    then result DrainTarget.pageable_then_nvme
    else if text_eq s (text "pageable")
    then result DrainTarget.pageable_only
    else if text_eq s (text "nvme")
    then result DrainTarget.nvme_only
    else error line

unfoldable pub drain_target_name : DrainTarget → Text
drain_target_name DrainTarget.pageable_only = text "pageable"
drain_target_name DrainTarget.nvme_only = text "nvme"
drain_target_name DrainTarget.pageable_then_nvme = text "pageable_then_nvme"

unfoldable pub parse_dedup_mode : Text → ℕ
parse_dedup_mode s =
    if text_eq s (text "disabled")
    then 0
    else if text_eq s (text "semantic_trusted")
    then 1
    else if text_eq s (text "hash_verified")
    then 2
    else if text_eq s (text "sampled_hash")
    then 3
    else 1

unfoldable pub parse_transport : Text → ℕ
parse_transport s =
    if text_eq s (text "tcp")
    then 1
    else if text_eq s (text "file")
    then 2
    else if one_of (text "libfabric_send" ∷ text "libfabric" ∷ []) s
    then 3
    else if text_eq s (text "libfabric_rdma_read")
    then 4
    else if text_eq s (text "libfabric_rdma_write")
    then 5
    else 1

-- spaces off both ends
unfoldable pub trim_front : Text → Text
trim_front [] = []
trim_front (c ∷ cs) = let rest = trim_front cs in if c == 32 then rest else c ∷ cs

unfoldable pub trim_back : Text → Text
trim_back [] = []
trim_back (c ∷ cs) = elim (trim_back cs) [
  | [] ↦ if c == 32 then [] else c ∷ []
  | d ∷ ds ↦ c ∷ d ∷ ds
]

-- `mult`, by the suffix
unfoldable pub suffix_unit : Text → Option ℕ
suffix_unit s =
    if one_of ([] ∷ text "b" ∷ []) s
    then some 1
    else if one_of (text "kib" ∷ text "kb" ∷ text "k" ∷ []) s
    then some (2 ^ 10)
    else if one_of (text "mib" ∷ text "mb" ∷ text "m" ∷ []) s
    then some (2 ^ 20)
    else if one_of (text "gib" ∷ text "gb" ∷ text "g" ∷ []) s
    then some (2 ^ 30)
    else if one_of (text "tib" ∷ text "tb" ∷ text "t" ∷ []) s
    then some (2 ^ 40)
    else none

-- `stod` gives the number and how many characters it took, `scaled` a number times a unit as a uint64_t.
module _ (Double : Type 0) (stod : Text → Option (Double × ℕ)) (scaled : Double → ℕ → ℕ) where
  unfoldable pub to_double : YamlNode → Outcome Double
  to_double (YamlNode.scalar line s) = elim (stod s) [
    | none ↦ error line
    | some (v, pos) ↦ if pos == length s then result v else error line
  ]
  to_double node = error (line_of node)

  unfoldable pub to_bytes : YamlNode → Outcome ℕ
  to_bytes (YamlNode.scalar line s) = elim (stod s) [
    | none ↦ error line
    | some (v, pos) ↦ elim (suffix_unit (to_lower (trim_back (trim_front (skip pos s))))) [
      | none ↦ error line
      | some unit ↦ result (scaled v unit)
    ]
  ]
  to_bytes node = error (line_of node)
