-- ===== src/Slots.antt =====
-- src/daemon/daemon.cpp: the slot table and the allocator. A handler's loop over a run of slots is
-- `for_run`; `clock` is what set_slot_state stamps.
pub mod Runs
pub mod Alloc
use state_spectre.Prelude.{
  ℕ, zero, suc, ◌+◌, ◌-◌, ◌*◌, ◌/◌, ◌%◌, ◌^◌, Bool, true, false, ◌&&◌, ◌||◌, Option, none, some,
  List, [], ◌∷◌, ltb, leb, ◌==◌, if◌then◌else◌, length, get_or, nat_eq,
}
use state_spectre.Prelude.Table.{find}
use state_spectre.State.{
  Slot, SlotState, is_free, Daemon, Window, used_pinned_bytes, remote_numa_allocs, inc, sub,
  has_allow_remote_numa,
}

abbrev pub put {ℓ} : {A : Type ℓ} → (ℕ → A) → ℕ → A → ℕ → A
put s i x j = if i == j then x else s j

abbrev pub slot_state : Daemon → ℕ → SlotState
slot_state d id = (d.slots id).state

-- what `set_slot_state` writes into an entry
abbrev pub touch : ℕ → SlotState → Slot → Slot
touch now st e = record e { state = st; last_touch_ns = now }

unfoldable pub set_slot_state : ℕ → SlotState → Daemon → Daemon
set_slot_state id st d = record d { slots = put d.slots id (touch d.clock st (d.slots id)) }

-- for (k = 0; k < count; ++k) slots_[base + k] = f(k, slots_[base + k])
unfoldable pub for_run : (ℕ → Slot → Slot) → ℕ → ℕ → ℕ → (ℕ → Slot) → ℕ → Slot
for_run f base k zero s = s
for_run f base k (suc n) s = for_run f base (suc k) n (put s (base + k) (f k (s (base + k))))

-- such a loop over the daemon's table
abbrev pub on_run : (ℕ → Slot → Slot) → ℕ → ℕ → Daemon → Daemon
on_run f base count d = record d { slots = for_run f base 0 count d.slots }

-- set_slot_state over a run
abbrev pub mark_run : SlotState → ℕ → ℕ → Daemon → Daemon
mark_run st base count d = on_run (λ k. touch d.clock st) base count d

-- The sum is uint64_t, the result is cut to uint32_t.
unfoldable pub slots_for_bytes : Daemon → ℕ → ℕ
slots_for_bytes d nbytes =
    let gran = d.cfg.allocation_granularity_bytes in
    let n = (nbytes + (gran - 1)) % 2 ^ 64 / gran in if n == 0 then 1 else n % 2 ^ 32

abbrev pub cleared : ℕ → Slot → Slot
cleared now e = record e {
  state = SlotState.free;
  nbytes = 0;
  tensor_id = 0;
  version = 0;
  lease_id = 0;
  owner_rank = 0;
  owner_pid = 0;
  rank_epoch = 0;
  cold_ref = 0;
  last_touch_ns = now;
  submit_seq = 0;
  complete_seq = 0;
}

unfoldable pub free_slots : ℕ → ℕ → Daemon → Daemon
free_slots base count d =
    sub used_pinned_bytes (count * d.cfg.allocation_granularity_bytes)
      (on_run (λ k. cleared d.clock) base count d)

-- the first k, from the given one on, at which ids[i + k] is not FREE
unfoldable pub busy_at : Daemon → List ℕ → ℕ → ℕ → ℕ → Option ℕ
busy_at d ids i k zero = none
busy_at d ids i k (suc n) =
    if is_free (slot_state d (get_or ids (i + k) 0)) then busy_at d ids i (suc k) n else some k

-- the loop over i of try_alloc_in_window: a busy slot at i + k sends it on to i + k + 1
unfoldable pub alloc_scan : Daemon → List ℕ → ℕ → ℕ → ℕ → Option ℕ
alloc_scan d ids count zero i = none
alloc_scan d ids count (suc fuel) i = elim (leb (i + count) (length ids)) [
  | false ↦ none
  | true ↦ elim (busy_at d ids i 0 count) [
    | none ↦ some (get_or ids i 0)
    | some k ↦ alloc_scan d ids count fuel (i + k + 1)
  ]
]

-- One round of the scan for each index, and one more.
unfoldable pub try_alloc_in_window : Daemon → Window → ℕ → Option ℕ
try_alloc_in_window d w count =
    if ltb (length w.slot_ids) count
    then none
    else alloc_scan d w.slot_ids count (suc (length w.slot_ids)) 0

abbrev pub overflow_gpu : ℕ
overflow_gpu = 0xFFFFFFFF

-- numa << 32 | gpu, for a gpu of 32 bits
abbrev pub window_key : ℕ → ℕ → ℕ
window_key numa gpu = numa * 2 ^ 32 + gpu

abbrev pub window_at : List Window → ℕ → Option Window
window_at [] i = none
window_at (w ∷ ws) zero = some w
window_at (w ∷ ws) (suc i) = window_at ws i

abbrev pub or_else {ℓ} : {A : Type ℓ} → Option A → Option A → Option A
or_else none o = o
or_else (some a) o = some a

abbrev pub in_window : Daemon → ℕ → Option Window → Option ℕ
in_window d count none = none
in_window d count (some w) = try_alloc_in_window d w count

abbrev pub try_win : Daemon → ℕ → ℕ → ℕ → Option ℕ
try_win d count numa gpu = elim (find (window_key numa gpu) d.window_index) [
  | none ↦ none
  | some i ↦ in_window d count (window_at d.windows i)
]

-- a loop over the windows that passes over some and stops at the first that has room
unfoldable pub first_window : Daemon → ℕ → (Window → Bool) → List Window → Option ℕ
first_window d count skip [] = none
first_window d count skip (w ∷ ws) =
    let rest = first_window d count skip ws in
    if skip w then rest else or_else (try_alloc_in_window d w count) rest

abbrev pub not_peer : ℕ → ℕ → Window → Bool
not_peer numa gpu w = if w.numa_node == numa then w.is_overflow || w.gpu == gpu else true

-- steps 1 to 3: the own window, the overflow window, a peer's window of the same NUMA node
unfoldable pub local_slots : Daemon → ℕ → ℕ → ℕ → Option ℕ
local_slots d count gpu numa = or_else (try_win d count numa gpu) (
    or_else (try_win d count numa overflow_gpu)
      (first_window d count (not_peer numa gpu) d.windows))

-- step 5: a window of another NUMA node, if the flags allow it
unfoldable pub remote_slots : Daemon → ℕ → ℕ → ℕ → Option ℕ
remote_slots d count numa flags =
    if has_allow_remote_numa flags
    then first_window d count (λ w. w.numa_node == numa) d.windows
    else none

-- Slot ids are below 0xFFFFFFFF, so that `base == kNoSlot` says that nothing was found.
unfoldable pub allocate_slots : ℕ → ℕ → ℕ → ℕ → Daemon → Option ℕ × Daemon
allocate_slots gpu numa nbytes flags d =
    let count = slots_for_bytes d nbytes in
    elim (local_slots d count gpu numa) [
      | some base ↦ (some base, d)
      | none ↦ elim (remote_slots d count numa flags) [
        | some base ↦ (some base, inc remote_numa_allocs d)
        | none ↦ (none, d)
      ]
    ]
