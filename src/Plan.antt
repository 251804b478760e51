-- ===== src/Plan.antt =====
-- src/daemon/config.h, the validation at the end of load_config (src/daemon/config.cpp), and the slot plan
-- of src/daemon/daemon.cpp: build_slot_plan with its lambda carve_window.
-- Slot numbers are uint32_t and wrap; the byte offsets within an arena are uint64_t there and unbounded here.
pub mod Windows
pub mod Bounds
pub mod Index
use state_spectre.Prelude.{
  ℕ, zero, suc, ◌+◌, ◌*◌, ◌/◌, ◌%◌, ◌^◌, Bool, true, false, ◌&&◌, not, List, [], ◌∷◌, ◌++◌, length,
  ltb, leb, ◌==◌, if◌then◌else◌, nat_eq,
}
use state_spectre.Prelude.Table.{Table, insert}
use state_spectre.State.{Slot, SlotState, Window, Daemon}
use state_spectre.Slots.{put, overflow_gpu, window_key}

pub record GpuWindowConfig : Type 0 where
  pub gpu : ℕ
  pub size_bytes : ℕ

pub record NumaArenaConfig : Type 0 where
  pub numa_node : ℕ
  pub size_bytes : ℕ
  pub gpu_windows : List GpuWindowConfig
  pub overflow_bytes : ℕ

-- `win_total`, which wraps
unfoldable pub window_total : List GpuWindowConfig → ℕ
window_total [] = 0
window_total (w ∷ ws) = (w.size_bytes + window_total ws) % 2 ^ 64

-- an arena that load_config does not throw on
unfoldable pub arena_valid : NumaArenaConfig → Bool
arena_valid a =
    not (a.size_bytes == 0)
    && leb ((window_total a.gpu_windows + a.overflow_bytes) % 2 ^ 64) a.size_bytes

-- load_config's checks on a configuration
unfoldable pub arenas_valid : List NumaArenaConfig → Bool
arenas_valid [] = true
arenas_valid (a ∷ rest) = arena_valid a && arenas_valid rest

unfoldable pub config_valid : ℕ → List NumaArenaConfig → Bool
config_valid granularity [] = false
config_valid granularity (a ∷ rest) = not (granularity == 0) && arenas_valid (a ∷ rest)

-- `total_slots` of build_arenas_and_control, the slots that the control mapping has room for
unfoldable pub total_slots : ℕ → List NumaArenaConfig → ℕ
total_slots granularity [] = 0
total_slots granularity (a ∷ rest) =
    (a.size_bytes / granularity % 2 ^ 32 + total_slots granularity rest) % 2 ^ 32

-- What carve_window works on; `cursor` is the byte offset within the arena.
pub record Carving : Type 0 where
  pub global_slot : ℕ
  pub cursor : ℕ
  pub windows : List Window
  pub window_index : Table ℕ ℕ
  pub slots : ℕ → Slot

-- count slot ids from `first` on
abbrev pub ids_from : ℕ → ℕ → List ℕ
ids_from first zero = []
ids_from first (suc n) = first ∷ ids_from (suc first % 2 ^ 32) n

-- the loop that writes count entries from number `first` on, its k-th round and the ones after it
unfoldable pub fill_run : (ℕ → Slot → Slot) → ℕ → ℕ → ℕ → (ℕ → Slot) → ℕ → Slot
fill_run f id k zero s = s
fill_run f id k (suc n) s = fill_run f (suc id % 2 ^ 32) (suc k) n (put s id (f k (s id)))

-- OFLD_FLAG_BORROWABLE
abbrev pub flag_borrowable : ℕ
flag_borrowable = 4

-- the entry of the k-th slot of a window
abbrev pub fresh_slot : ℕ → ℕ → ℕ → Bool → ℕ → ℕ → ℕ → ℕ → Slot → Slot
fresh_slot numa gpu arena is_overflow granularity cursor first k e = record {
  state = SlotState.free;
  slot_id = (first + k) % 2 ^ 32;
  numa_node = numa;
  gpu_preferred = gpu;
  arena_id = arena;
  arena_offset = cursor + k * granularity;
  capacity = granularity;
  nbytes = 0;
  tensor_id = 0;
  version = 0;
  lease_id = 0;
  owner_rank = 0;
  owner_pid = 0;
  rank_epoch = 0;
  flags = if is_overflow then 0 else flag_borrowable;
  cold_ref = 0;
  checksum = 0;
  last_touch_ns = 0;
  submit_seq = 0;
  complete_seq = 0;
}

module _ (granularity : ℕ) where
  -- a window of n slots in arena number `arena` of the configuration
  unfoldable pub add_window : ℕ → ℕ → ℕ → Bool → ℕ → Carving → Carving
  add_window arena numa gpu is_overflow n c = record {
    global_slot = (c.global_slot + n) % 2 ^ 32;
    cursor = c.cursor + n * granularity;
    windows =
        c.windows
        ++ (record {
          numa_node = numa;
          gpu = gpu;
          is_overflow = is_overflow;
          slot_ids = ids_from c.global_slot n;
        }
            ∷ []);
    window_index = insert (window_key numa gpu) (length c.windows) c.window_index;
    slots =
        fill_run (fresh_slot numa gpu arena is_overflow granularity c.cursor c.global_slot)
          c.global_slot 0 n c.slots;
  }

  unfoldable pub carve_window : ℕ → ℕ → ℕ → Bool → ℕ → Carving → Carving
  carve_window arena numa gpu is_overflow bytes c =
      let n = bytes / granularity in
      if n == 0
      then c
      else add_window arena numa (if is_overflow then overflow_gpu else gpu) is_overflow n c

  unfoldable pub carve_gpu_windows : ℕ → ℕ → List GpuWindowConfig → Carving → Carving
  carve_gpu_windows arena numa [] c = c
  carve_gpu_windows arena numa (w ∷ ws) c =
      carve_gpu_windows arena numa ws (carve_window arena numa w.gpu false w.size_bytes c)

  unfoldable pub carve_arena : ℕ → NumaArenaConfig → Carving → Carving
  carve_arena arena a c =
      carve_window arena a.numa_node overflow_gpu true a.overflow_bytes
        (carve_gpu_windows arena a.numa_node a.gpu_windows (record c { cursor = 0 }))

  -- the loop over the arenas, from number `arena` on
  unfoldable pub carve_arenas : ℕ → List NumaArenaConfig → Carving → Carving
  carve_arenas arena [] c = c
  carve_arenas arena (a ∷ rest) c = carve_arenas (suc arena) rest (carve_arena arena a c)

  unfoldable pub build_slot_plan : List NumaArenaConfig → (ℕ → Slot) → Carving
  build_slot_plan arenas zeroed =
      carve_arenas 0 arenas
        (record { global_slot = 0; cursor = 0; windows = []; window_index = []; slots = zeroed })

-- the tables of the daemon after build_slot_plan
abbrev pub planned : Daemon → Carving → Daemon
planned d c = record d { windows = c.windows; window_index = c.window_index; slots = c.slots }
