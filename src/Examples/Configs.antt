-- ===== src/Examples/Configs.antt =====
-- The theorems on the loader at a file with one arena, and files that it refuses.
use Prim.Native.String.{String}
use state_spectre.Prelude.{
  ℕ, ◌*◌, ◌^◌, ◌≡◌, ◌≢◌, refl, List, [], ◌∷◌, ◌++◌, Option, none, some, arith,
}
use state_spectre.Plan.{build_slot_plan, NumaArenaConfig}
use state_spectre.Plan.Bounds.{IsPlaced}
use state_spectre.Config.{Text, text, error, no_fuel, result}
use state_spectre.Config.Daemon.{DaemonConfig, defaults}
use state_spectre.Config.Accepted.{load_config-IsPlaced}
use state_spectre.Config.Ends.{parse_file-ends}
use state_spectre.Config.{◌>>=◌, text_eq, text_less}
use state_spectre.Config.Load.{parse_file, parse_lines, root_of, load_config, load_file, validate}
use state_spectre.Config.Arenas.{
  arena_of, assign, each, in_section, list_at, set_all, set_arena, set_window, window_of,
}
use state_spectre.Config.Sections.{in_arenas, in_quotas, set_arenas, set_daemon, set_sections}
use state_spectre.Config.Text.{
  tokenize, tokenize_from, split_lines, strip, rstrip, lstrip, strip_comment, source_line, has_tab,
  skip, spaces, spaces_and_tabs,
}
use state_spectre.Config.Tree.{
  YamlNode, Fields, parse_node, parse_map, parse_seq, parse_block, weight, content_column, is_item,
  item_line, set_field, split_colon, find_field,
}
use state_spectre.Config.Values.{skip_space, stoll, take_digits, to_multiple, to_u32, to_u64}
use state_spectre.Plan.{arena_valid, arenas_valid, config_valid, window_total}
use state_spectre.Examples.{free_slot}

-- lines as the text of a file
abbrev file_of : List String → Text
file_of [] = []
file_of (l ∷ ls) = text l ++ (10 ∷ file_of ls)

-- doubles are whole numbers here, and none is read
abbrev no_stod : Text → Option (ℕ × ℕ)
no_stod s = none

abbrev small_file : Text
small_file = file_of (
    "daemon:  # a comment" ∷ "  ring_poll_us: 20" ∷ "" ∷ "arenas:"
    ∷ "  allocation_granularity_mb: 256" ∷ "  per_numa:" ∷ "    - numa_node: 1" ∷ "      size_gb: 2"
    ∷ "      overflow_gb: 1" ∷ "      gpu_windows:" ∷ "        - gpu: 3" ∷ "          size_gb: 1"
    ∷ [])

abbrev small_arena : NumaArenaConfig
small_arena = record {
  numa_node = 1;
  size_bytes = 2147483648;
  gpu_windows = record { gpu = 3; size_bytes = 1073741824 } ∷ [];
  overflow_bytes = 1073741824;
}

abbrev small_config : DaemonConfig ℕ
small_config = record (defaults ℕ (λ n. n)) {
  ring_poll_us = 20;
  allocation_granularity_bytes = 268435456;
  per_numa = small_arena ∷ [];
}

small_file-loads :
    load_config ℕ (λ n. n) no_stod ◌*◌ (text "a.yaml") (some small_file) ≡ result small_config
unfolding parse_file parse_lines root_of ◌>>=◌ text_eq text_less tokenize tokenize_from split_lines
    strip rstrip lstrip strip_comment source_line has_tab skip spaces spaces_and_tabs parse_node
    parse_map parse_seq parse_block weight content_column is_item item_line set_field split_colon
    load_config load_file validate find_field arena_of assign each in_arenas in_section in_quotas
    list_at set_all set_arena set_arenas set_daemon set_sections set_window window_of skip_space
    stoll take_digits to_multiple to_u32 to_u64 arena_valid arenas_valid config_valid window_total
small_file-loads = refl

load_config-IsPlaced_example :
    IsPlaced 268435456 (small_arena ∷ []) (build_slot_plan 268435456 (small_arena ∷ []) free_slot)
load_config-IsPlaced_example =
    load_config-IsPlaced ℕ (λ n. n) no_stod ◌*◌ (text "a.yaml") (some small_file) small_config
      free_slot small_file-loads (omega arith, tt) (omega arith)

parse_file-ends_example : parse_file small_file ≢ no_fuel
parse_file-ends_example = parse_file-ends small_file

bad_indentation :
    parse_file (file_of ("daemon:" ∷ "    ring_poll_us: 20" ∷ "  socket_path: /a" ∷ [])) ≡ error 3
unfolding parse_file parse_lines root_of ◌>>=◌ text_eq text_less tokenize tokenize_from split_lines
    strip rstrip lstrip strip_comment source_line has_tab skip spaces spaces_and_tabs parse_node
    parse_map parse_seq parse_block weight content_column is_item item_line set_field split_colon
bad_indentation = refl

tab_indented : parse_file (9 ∷ text "daemon: x") ≡ error 1
unfolding parse_file parse_lines root_of ◌>>=◌ text_eq text_less tokenize tokenize_from split_lines
    strip rstrip lstrip strip_comment source_line has_tab skip spaces spaces_and_tabs parse_node
    parse_map parse_seq parse_block weight content_column is_item item_line set_field split_colon
tab_indented = refl

not_a_pair : parse_file (file_of ("daemon: a" ∷ "socket" ∷ [])) ≡ error 2
unfolding parse_file parse_lines root_of ◌>>=◌ text_eq text_less tokenize tokenize_from split_lines
    strip rstrip lstrip strip_comment source_line has_tab skip spaces spaces_and_tabs parse_node
    parse_map parse_seq parse_block weight content_column is_item item_line set_field split_colon
not_a_pair = refl

-- 2^34 + 1 GB
size_wraps : to_multiple (2 ^ 30) (YamlNode.scalar 1 (text "17179869185")) ≡ result 1073741824
unfolding to_multiple to_u64 stoll take_digits skip_space ◌>>=◌
size_wraps = refl

negative_refused : to_u64 (YamlNode.scalar 4 (text "-1")) ≡ error 4
unfolding to_u64 stoll take_digits skip_space
negative_refused = refl

scalar_section :
    (c : DaemonConfig ℕ)
    → in_section
        (set_daemon ℕ no_stod ◌*◌)
        (text "daemon")
        (Fields.field (text "daemon") (YamlNode.scalar 1 (text "5")) Fields.end)
        c
      ≡ result c
unfolding in_section find_field set_all text_eq
scalar_section c = refl
