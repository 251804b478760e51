-- ===== src/Layout.antt =====
-- src/common/control_layout.h: where the parts of the control mapping lie. Offsets are uint64_t and
-- wrap.
use state_spectre.Prelude.{ℕ, ◌+◌, ◌-◌, ◌*◌, ◌/◌, ◌%◌, ◌^◌, ◌≤◌, ◌<◌, ◌≡◌, arith}
use native.Mathlib.Nat.{div-add-mod, mod-lt, mul-mod_left}

unfoldable pub align_up : ℕ → ℕ → ℕ
align_up v a = (v + (a - 1)) % 2 ^ 64 / a * a

-- sizeof of `ofld_slot_table_header_t`, `ofld_arena_desc_t` and `ofld_slot_entry_t`
abbrev pub header_size : ℕ
header_size = 192

abbrev pub arena_desc_size : ℕ
arena_desc_size = 80

abbrev pub slot_entry_size : ℕ
slot_entry_size = 256

abbrev pub cacheline : ℕ
cacheline = 64

pub record ControlLayout : Type 0 where
  pub header_offset : ℕ
  pub arena_desc_offset : ℕ
  pub slot_entries_offset : ℕ
  pub control_ring_offset : ℕ
  pub control_ring_bytes : ℕ
  pub total_bytes : ℕ
  pub num_arenas : ℕ
  pub num_slots : ℕ
  pub max_ranks : ℕ
  pub ring_stride : ℕ

unfoldable pub compute_control_layout : ℕ → ℕ → ℕ → ControlLayout
compute_control_layout num_arenas num_slots ring_bytes =
    let arenas = align_up header_size cacheline in
    let slots = align_up ((arenas + num_arenas * arena_desc_size) % 2 ^ 64) cacheline in
    let rings = align_up ((slots + num_slots * slot_entry_size) % 2 ^ 64) cacheline in
    record {
      header_offset = 0;
      arena_desc_offset = arenas;
      slot_entries_offset = slots;
      control_ring_offset = rings;
      control_ring_bytes = ring_bytes;
      total_bytes = align_up ((rings + ring_bytes) % 2 ^ 64) 4096;
      num_arenas = num_arenas;
      num_slots = num_slots;
      max_ranks = 0;
      ring_stride = 0;
    }

-- For a positive alignment, align_up gives the least multiple of it that is not below the offset, if
-- the sum with the alignment has 64 bits.
pub align_up_least :
    (v a : ℕ)
    → 0 < a
    → v + a ≤ 2 ^ 64
    → (align_up v a % a ≡ 0) × (v ≤ align_up v a) × (align_up v a < v + a)
unfolding align_up
align_up_least v a h fits =
    let same : (v + (a - 1)) % 2 ^ 64 ≡ v + (a - 1) = omega arith in
    rw same (
      mul-mod_left ((v + (a - 1)) / a) a,
      omega (arith, div-add-mod (v + (a - 1)) a, mod-lt (v + (a - 1)) h),
      omega (arith, div-add-mod (v + (a - 1)) a, mod-lt (v + (a - 1)) h),
    )

-- For 32-bit counts of arenas and slots and rings of less than 2^63 bytes, header, arena
-- descriptors, slot entries and rings lie behind one another without overlap, each part begins on a
-- cache line, and the mapping ends on a page behind the rings: no 64-bit offset wraps.
pub layout_disjoint :
    (num_arenas num_slots ring_bytes : ℕ)
    → num_arenas < 2 ^ 32
    → num_slots < 2 ^ 32
    → ring_bytes < 2 ^ 63
    → let l = compute_control_layout num_arenas num_slots ring_bytes in
      (l.header_offset + header_size ≤ l.arena_desc_offset)
      × (l.arena_desc_offset + num_arenas * arena_desc_size ≤ l.slot_entries_offset)
      × (l.slot_entries_offset + num_slots * slot_entry_size ≤ l.control_ring_offset)
      × (l.control_ring_offset + ring_bytes ≤ l.total_bytes)
      × (l.arena_desc_offset % cacheline ≡ 0)
      × (l.slot_entries_offset % cacheline ≡ 0)
      × (l.control_ring_offset % cacheline ≡ 0)
      × (l.total_bytes % 4096 ≡ 0)
unfolding compute_control_layout align_up
layout_disjoint a s r ha hs hr = omega arith
