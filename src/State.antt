-- ===== src/State.antt =====
-- The state of `OffloadDaemon` (src/daemon/daemon.h).
mod Abi
mod Metrics
mod Model
pub use Abi.*
pub use Metrics.*
pub use Model.*
use Prim.Native.Nat.{ℕ, ◌+◌, ◌-◌, ◌%◌, ◌^◌, ◌*◌}
use mathlib.Core.Bool.{Bool}
use mathlib.Core.List.{List}
use state_spectre.Prelude.Table.{Table}

-- the fields of `DaemonConfig` that the modelled code reads. `v2_pressure_reached used total` is the
-- comparison, in double, of used / total (0 for an empty arena) with
-- v2_duplicate_candidate_gpu_pressure_threshold.
pub record Config : Type 0 where
  pub allocation_granularity_bytes : ℕ
  pub drain_on_d2h_complete : Bool
  pub heartbeat_timeout_ms : ℕ
  pub v2_enable_canonical_store : Bool
  pub v2_enable_manifests : Bool
  pub v2_enable_rollout_export : Bool
  pub v2_include_launch_epoch : Bool
  pub v2_creating_policy : ℕ
  pub v2_pressure_reached : ℕ → ℕ → Bool
  pub v2_seal_requires_all_objects_valid : Bool
  pub v2_retain_sealed_versions : ℕ
  pub v2_max_concurrent_exports_per_job : ℕ
  pub v2_quota_max_pinned_bytes : ℕ
  pub v2_quota_max_pageable_bytes : ℕ
  pub v2_quota_max_nvme_bytes : ℕ
  pub v2_quota_max_inflight_d2h_bytes : ℕ
  pub v2_quota_max_inflight_export_bytes : ℕ

-- `slot_ids` are contiguous, in address order.
pub record Window : Type 0 where
  pub numa_node : ℕ
  pub gpu : ℕ
  pub is_overflow : Bool
  pub slot_ids : List ℕ

pub record Session : Type 0 where
  pub rank_id : ℕ
  pub rank_epoch : ℕ
  pub pid : ℕ
  pub gpu_id : ℕ
  pub numa_node : ℕ
  pub last_heartbeat_ns : ℕ
  pub alive : Bool
  pub ring_index : ℕ

pub record Lease : Type 0 where
  pub lease_id : ℕ
  pub base_slot : ℕ
  pub slot_count : ℕ
  pub tensor_id : ℕ
  pub version : ℕ
  pub owner_rank : ℕ
  pub owner_pid : ℕ
  pub rank_epoch : ℕ
  pub nbytes : ℕ
  pub is_prefetch : Bool

pub record Location : Type 0 where
  pub tensor_id : ℕ
  pub version : ℕ
  pub kind : LocationKind
  pub slot_id : ℕ
  pub cold_ref : ℕ
  pub nbytes : ℕ

pub record NvmeChunk : Type 0 where
  pub path : List ℕ
  pub offset : ℕ
  pub len : ℕ

-- `pageable` is the buffer's address, 0 for nullptr.
pub record ColdEntry : Type 0 where
  pub kind : LocationKind
  pub nbytes : ℕ
  pub pageable : ℕ
  pub nvme_chunks : List NvmeChunk

pub record DrainJob : Type 0 where
  pub base_slot : ℕ
  pub slot_count : ℕ

pub record ReadbackJob : Type 0 where
  pub base_slot : ℕ
  pub slot_count : ℕ
  pub cold_ref : ℕ
  pub nbytes : ℕ

-- All that `mu_` guards, the two work queues and the metrics. The slot table is a function of the
-- slot id. `clock` is what `now_real_ns()` returns while a handler holds the lock.
pub record Daemon : Type 0 where
  pub cfg : Config
  pub num_slots : ℕ
  pub windows : List Window
  pub window_index : Table ℕ ℕ
  pub slots : ℕ → Slot
  pub sessions : Table ℕ Session
  pub leases : Table ℕ Lease
  pub locations : Table ℕ Location
  pub cold_store : Table ℕ ColdEntry
  pub next_lease_id : ℕ
  pub next_rank_epoch : ℕ
  pub next_cold_ref : ℕ
  pub jobs : Table JobUid JobRecord
  pub objects : Table ℕ Object
  pub object_by_key : Table (List ℕ) ℕ
  pub manifests : Table VersionKey Manifest
  pub latest_sealed : Table RoleKey ℕ
  pub next_object_id : ℕ
  pub next_launch_epoch : ℕ
  pub drain_queue : List DrainJob
  pub readback_queue : List ReadbackJob
  pub metrics : Counters
  pub clock : ℕ

-- Metrics::add, Metrics::inc and Metrics::sub on the one instance
abbrev pub add : Metric → ℕ → Daemon → Daemon
add m v d = record d { metrics = add_counter m v d.metrics }

abbrev pub inc : Metric → Daemon → Daemon
inc m d = add m 1 d

abbrev pub sub : Metric → ℕ → Daemon → Daemon
sub m v d = record d { metrics = sub_counter m v d.metrics }
