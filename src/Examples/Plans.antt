-- ===== src/Examples/Plans.antt =====
-- The theorems on the slot plan at a node with two GPUs, and two configurations that are accepted.
use state_spectre.Prelude.Table.{insert}
use state_spectre.Plan.{
  add_window, arena_valid, arenas_valid, carve_arena, carve_arenas, carve_gpu_windows, carve_window,
  window_total,
}
use state_spectre.Prelude.{ℕ, ◌*◌, ◌^◌, ◌≡◌, refl, true, [], ◌∷◌, ltb, nat_eq, some}
use state_spectre.Prelude.Table.{find}
use state_spectre.Slots.{window_key}
use state_spectre.Slots.Alloc.{WellIndexed}
use state_spectre.Plan.{
  GpuWindowConfig, NumaArenaConfig, config_valid, total_slots, build_slot_plan, planned,
}
use state_spectre.Plan.Index.{build_slot_plan-WellIndexed}
use state_spectre.Examples.{free_slot, idle}

abbrev mib : ℕ
mib = 1048576

abbrev window : ℕ → ℕ → GpuWindowConfig
window gpu size = record { gpu = gpu; size_bytes = size }

abbrev node : NumaArenaConfig
node = record {
  numa_node = 0;
  size_bytes = 64 * mib;
  gpu_windows = window 0 (20 * mib) ∷ window 1 (20 * mib) ∷ [];
  overflow_bytes = 16 * mib;
}

build_slot_plan-WellIndexed_example :
    WellIndexed (planned idle (build_slot_plan (2 * mib) (node ∷ []) free_slot))
build_slot_plan-WellIndexed_example =
    build_slot_plan-WellIndexed (2 * mib) (node ∷ []) free_slot idle refl

-- Two windows of 2^63 bytes in an arena of 1 GiB: their sum wraps, and the plan has no room.
abbrev wrapping : NumaArenaConfig
wrapping = record {
  numa_node = 0;
  size_bytes = 2 ^ 30;
  gpu_windows = window 0 (2 ^ 63) ∷ window 1 (2 ^ 63) ∷ [];
  overflow_bytes = 0;
}

wrapping_accepted : config_valid (2 ^ 62) (wrapping ∷ []) ≡ true
unfolding config_valid arenas_valid arena_valid window_total
wrapping_accepted = refl

wrapping_overruns :
    ltb
      (total_slots (2 ^ 62) (wrapping ∷ []))
      (build_slot_plan (2 ^ 62) (wrapping ∷ []) free_slot).global_slot
    ≡ true
unfolding total_slots build_slot_plan carve_arenas carve_arena carve_window carve_gpu_windows
    add_window
wrapping_overruns = refl

-- Two windows of one GPU: the index has the second only.
abbrev doubled : NumaArenaConfig
doubled = record {
  numa_node = 0;
  size_bytes = 64 * mib;
  gpu_windows = window 0 (20 * mib) ∷ window 0 (20 * mib) ∷ [];
  overflow_bytes = 0;
}

doubled_accepted : config_valid (2 * mib) (doubled ∷ []) ≡ true
unfolding config_valid arenas_valid arena_valid window_total
doubled_accepted = refl

doubled_loses_window :
    find (window_key 0 0) (build_slot_plan (2 * mib) (doubled ∷ []) free_slot).window_index ≡ some 1
unfolding find build_slot_plan carve_arenas carve_arena carve_window carve_gpu_windows add_window
    insert
doubled_loses_window = refl
