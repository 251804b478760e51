-- ===== src/Config/Daemon.antt =====
-- src/daemon/config.h: DaemonConfig with its defaults, and default_smoke_config of
-- src/daemon/config.cpp.
use state_spectre.Prelude.{
  ℕ, ◌-◌, ◌*◌, ◌/◌, ◌^◌, min, List, [], ◌∷◌, Bool, true, false, leb, ltb, if◌then◌else◌,
}
use state_spectre.Plan.{NumaArenaConfig}
use state_spectre.Config.{Text, text}
use state_spectre.Config.Values.{DrainTarget}

pub record DaemonConfig (Double : Type 0) : Type 0 where
  pub socket_path : Text
  pub control_shm_name : Text
  pub heartbeat_timeout_ms : ℕ
  pub registration_policy : Text
  pub registration_chunk_bytes : ℕ
  pub allocation_granularity_bytes : ℕ
  pub per_numa : List NumaArenaConfig
  pub drain_target : DrainTarget
  pub drain_on_d2h_complete : Bool
  pub normal_threshold : Double
  pub priority_threshold : Double
  pub aggressive_threshold : Double
  pub nvme_enabled : Bool
  pub nvme_path : Text
  pub nvme_io_engine : Text
  pub nvme_direct_io : Bool
  pub nvme_stripe : Bool
  pub nvme_stripe_count : ℕ
  pub nvme_block_bytes : ℕ
  pub nvme_queue_depth : ℕ
  pub nvme_stripe_dirs : List Text
  pub default_invalidate : Text
  pub require_own_storage : Bool
  pub allow_views : Bool
  pub unsafe_autograd : Bool
  pub drain_workers : ℕ
  pub nvme_workers : ℕ
  pub completion_ring_max_ranks : ℕ
  pub completion_ring_capacity : ℕ
  pub ring_poll_us : ℕ
  pub v2_enable_canonical_store : Bool
  pub v2_enable_manifests : Bool
  pub v2_enable_rollout_export : Bool
  pub v2_default_tenant_id : ℕ
  pub v2_require_job_registration : Bool
  pub v2_include_launch_epoch : Bool
  pub v2_dedup_default_mode : ℕ
  pub v2_cross_job_dedup : Bool
  pub v2_creating_policy : ℕ
  pub v2_duplicate_candidate_gpu_pressure_threshold : Double
  pub v2_sampled_hash_bytes_per_gib : ℕ
  pub v2_seal_requires_all_objects_valid : Bool
  pub v2_retain_sealed_versions : ℕ
  pub v2_default_transport : ℕ
  pub v2_fallback_transport : ℕ
  pub v2_use_dedicated_export_buffers : Bool
  pub v2_require_export_refcount : Bool
  pub v2_max_concurrent_exports_per_job : ℕ
  pub v2_control_tcp_port : ℕ
  pub v2_quota_max_pinned_bytes : ℕ
  pub v2_quota_max_pageable_bytes : ℕ
  pub v2_quota_max_nvme_bytes : ℕ
  pub v2_quota_max_inflight_d2h_bytes : ℕ
  pub v2_quota_max_inflight_export_bytes : ℕ

-- A double literal is the number of its hundredths.
module _ (Double : Type 0) (hundredths : ℕ → Double) where
  abbrev pub defaults : DaemonConfig Double
  defaults = record {
    socket_path = text "/tmp/state_spectre.sock";
    control_shm_name = text "/state_spectre_ctrl";
    heartbeat_timeout_ms = 5000;
    registration_policy = text "lazy_chunked";
    registration_chunk_bytes = 512 * 2 ^ 20;
    allocation_granularity_bytes = 16 * 2 ^ 20;
    per_numa = [];
    drain_target = DrainTarget.pageable_then_nvme;
    drain_on_d2h_complete = true;
    normal_threshold = hundredths 60;
    priority_threshold = hundredths 80;
    aggressive_threshold = hundredths 95;
    nvme_enabled = true;
    nvme_path = text "/nvme/state_spectre";
    nvme_io_engine = text "io_uring";
    nvme_direct_io = true;
    nvme_stripe = true;
    nvme_stripe_count = 4;
    nvme_block_bytes = 16 * 2 ^ 20;
    nvme_queue_depth = 8;
    nvme_stripe_dirs = [];
    default_invalidate = text "set_empty";
    require_own_storage = true;
    allow_views = false;
    unsafe_autograd = false;
    drain_workers = 2;
    nvme_workers = 2;
    completion_ring_max_ranks = 64;
    completion_ring_capacity = 1024;
    ring_poll_us = 50;
    v2_enable_canonical_store = true;
    v2_enable_manifests = true;
    v2_enable_rollout_export = true;
    v2_default_tenant_id = 0;
    v2_require_job_registration = true;
    v2_include_launch_epoch = true;
    v2_dedup_default_mode = 1;
    v2_cross_job_dedup = false;
    v2_creating_policy = 0;
    v2_duplicate_candidate_gpu_pressure_threshold = hundredths 90;
    v2_sampled_hash_bytes_per_gib = 2 ^ 20;
    v2_seal_requires_all_objects_valid = true;
    v2_retain_sealed_versions = 4;
    v2_default_transport = 3;
    v2_fallback_transport = 1;
    v2_use_dedicated_export_buffers = true;
    v2_require_export_refcount = true;
    v2_max_concurrent_exports_per_job = 8;
    v2_control_tcp_port = 0;
    v2_quota_max_pinned_bytes = 0;
    v2_quota_max_pageable_bytes = 0;
    v2_quota_max_nvme_bytes = 0;
    v2_quota_max_inflight_d2h_bytes = 0;
    v2_quota_max_inflight_export_bytes = 0;
  }

  abbrev overflow_of : ℕ → ℕ
  overflow_of arena_bytes =
      let overflow = if ltb (arena_bytes / 8) (2 ^ 24) then 2 ^ 24 else arena_bytes / 8 in
      if leb arena_bytes overflow then arena_bytes / 2 else overflow

  -- the arena of the smoke configuration
  unfoldable pub smoke_arena : ℕ → ℕ → ℕ → NumaArenaConfig
  smoke_arena arena_bytes numa_node gpu_id = record {
    numa_node = numa_node;
    size_bytes = arena_bytes;
    gpu_windows = record { gpu = gpu_id; size_bytes = arena_bytes - overflow_of arena_bytes } ∷ [];
    overflow_bytes = overflow_of arena_bytes;
  }

  unfoldable pub default_smoke_config : ℕ → ℕ → ℕ → DaemonConfig Double
  default_smoke_config arena_bytes numa_node gpu_id = record defaults {
    allocation_granularity_bytes = 2 ^ 21;
    registration_chunk_bytes = min arena_bytes (2 ^ 29);
    nvme_enabled = false;
    drain_workers = 1;
    nvme_workers = 1;
    drain_target = DrainTarget.pageable_only;
    per_numa = smoke_arena arena_bytes numa_node gpu_id ∷ [];
  }
