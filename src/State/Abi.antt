-- ===== src/State/Abi.antt =====
-- abi/offload_abi.h: slot states, location kinds and slot entries.
use Prim.Native.Nat.{ℕ, ◌/◌, ◌%◌}
use mathlib.Core.Bool.{Bool, true, false}
use state_spectre.Prelude.{◌==◌}

-- `ofld_slot_state_t`
pub data SlotState : Type 0 where
  free reserved_d2h d2h_in_flight pinned_valid drain_in_flight cold_valid : SlotState
  reserved_h2d readback_in_flight h2d_in_flight gpu_valid error : SlotState

-- `ofld_location_kind_t`
pub data LocationKind : Type 0 where
  none gpu pinned pageable nvme deleted error : LocationKind

abbrev pub is_free : SlotState → Bool
is_free SlotState.free = true
is_free _ = false

abbrev pub is_reserved_d2h : SlotState → Bool
is_reserved_d2h SlotState.reserved_d2h = true
is_reserved_d2h _ = false

abbrev pub is_d2h_in_flight : SlotState → Bool
is_d2h_in_flight SlotState.d2h_in_flight = true
is_d2h_in_flight _ = false

abbrev pub is_pinned_valid : SlotState → Bool
is_pinned_valid SlotState.pinned_valid = true
is_pinned_valid _ = false

abbrev pub is_drain_in_flight : SlotState → Bool
is_drain_in_flight SlotState.drain_in_flight = true
is_drain_in_flight _ = false

abbrev pub is_cold_valid : SlotState → Bool
is_cold_valid SlotState.cold_valid = true
is_cold_valid _ = false

abbrev pub is_readback_in_flight : SlotState → Bool
is_readback_in_flight SlotState.readback_in_flight = true
is_readback_in_flight _ = false

abbrev pub is_h2d_in_flight : SlotState → Bool
is_h2d_in_flight SlotState.h2d_in_flight = true
is_h2d_in_flight _ = false

abbrev pub is_pinned : LocationKind → Bool
is_pinned LocationKind.pinned = true
is_pinned _ = false

abbrev pub is_pageable : LocationKind → Bool
is_pageable LocationKind.pageable = true
is_pageable _ = false

abbrev pub is_nvme : LocationKind → Bool
is_nvme LocationKind.nvme = true
is_nvme _ = false

-- kind == OFLD_LOC_NONE || kind == OFLD_LOC_DELETED
abbrev pub is_gone : LocationKind → Bool
is_gone LocationKind.none = true
is_gone LocationKind.deleted = true
is_gone _ = false

-- `ofld_slot_entry_t`, without its reserved bytes
pub record Slot : Type 0 where
  pub state : SlotState
  pub slot_id : ℕ
  pub numa_node : ℕ
  pub gpu_preferred : ℕ
  pub arena_id : ℕ
  pub arena_offset : ℕ
  pub capacity : ℕ
  pub nbytes : ℕ
  pub tensor_id : ℕ
  pub version : ℕ
  pub lease_id : ℕ
  pub owner_rank : ℕ
  pub owner_pid : ℕ
  pub rank_epoch : ℕ
  pub flags : ℕ
  pub cold_ref : ℕ
  pub checksum : ℕ
  pub last_touch_ns : ℕ
  pub submit_seq : ℕ
  pub complete_seq : ℕ

-- OFLD_FLAG_ALLOW_OVERFLOW, OFLD_FLAG_ALLOW_REMOTE_NUMA and OFLD_FLAG_DESTRUCTIVE
abbrev pub flag_allow_overflow : ℕ
flag_allow_overflow = 1

abbrev pub flag_allow_remote_numa : ℕ
flag_allow_remote_numa = 2

abbrev pub flag_destructive : ℕ
flag_destructive = 8

-- flags & OFLD_FLAG_ALLOW_REMOTE_NUMA
abbrev pub has_allow_remote_numa : ℕ → Bool
has_allow_remote_numa flags = flags / 2 % 2 == 1
