-- ===== src/State/Metrics.antt =====
-- src/common/metrics.h: the named counters. They are uint64_t, and `add` and `sub` wrap.
use Prim.Native.Nat.{ℕ, ◌+◌, ◌-◌, ◌%◌, ◌^◌}
use state_spectre.Prelude.{◌==◌, if◌then◌else◌}

-- `Metric`, the counters that the modelled code writes
pub data Metric : Type 0 where
  d2h_bytes h2d_bytes used_pinned_bytes inflight_d2h_bytes inflight_h2d_bytes draining_bytes :
      Metric
  offload_requests leases_granted blocked_reservations remote_numa_allocs drains_enqueued : Metric
  drains_completed prefetch_requests readbacks_started readbacks_completed : Metric
  invalid_transition_rejected stale_version_rejected epoch_mismatch_rejected : Metric
  slot_overlap_prevented lease_owner_mismatch_rejected checksum_mismatch io_failure : Metric
  rank_sessions_invalidated jobs_registered canonical_objects_created : Metric
  canonical_attach_existing canonical_attach_wait canonical_duplicate_candidate : Metric
  canonical_dedup_bytes_saved canonical_d2h_bytes_avoided canonical_hash_mismatch : Metric
  canonical_stale_version_reject canonical_restore_served canonical_objects_dropped : Metric
  quota_rejections manifest_sealed manifest_seal_failed rollout_get_manifest : Metric
  rollout_pull_tensor rollout_pull_bytes rollout_stale_manifest_reject : Metric
  export_inflight_bytes export_staging_bytes export_from_pinned export_from_pageable : Metric
  export_from_nvme export_transport_errors : Metric

-- the enumerator's value
abbrev pub metric_index : Metric → ℕ
metric_index d2h_bytes = 0
metric_index h2d_bytes = 1
metric_index used_pinned_bytes = 6
metric_index inflight_d2h_bytes = 7
metric_index inflight_h2d_bytes = 8
metric_index draining_bytes = 9
metric_index offload_requests = 12
metric_index leases_granted = 13
metric_index blocked_reservations = 14
metric_index remote_numa_allocs = 15
metric_index drains_enqueued = 16
metric_index drains_completed = 17
metric_index prefetch_requests = 18
metric_index readbacks_started = 19
metric_index readbacks_completed = 20
metric_index invalid_transition_rejected = 21
metric_index stale_version_rejected = 22
metric_index epoch_mismatch_rejected = 23
metric_index slot_overlap_prevented = 24
metric_index lease_owner_mismatch_rejected = 25
metric_index checksum_mismatch = 26
metric_index io_failure = 27
metric_index rank_sessions_invalidated = 28
metric_index jobs_registered = 29
metric_index canonical_objects_created = 30
metric_index canonical_attach_existing = 31
metric_index canonical_attach_wait = 32
metric_index canonical_duplicate_candidate = 33
metric_index canonical_dedup_bytes_saved = 34
metric_index canonical_d2h_bytes_avoided = 35
metric_index canonical_hash_mismatch = 36
metric_index canonical_stale_version_reject = 37
metric_index canonical_restore_served = 38
metric_index canonical_objects_dropped = 39
metric_index quota_rejections = 40
metric_index manifest_sealed = 41
metric_index manifest_seal_failed = 42
metric_index rollout_get_manifest = 43
metric_index rollout_pull_tensor = 44
metric_index rollout_pull_bytes = 45
metric_index rollout_stale_manifest_reject = 46
metric_index export_inflight_bytes = 47
metric_index export_staging_bytes = 48
metric_index export_from_pinned = 49
metric_index export_from_pageable = 50
metric_index export_from_nvme = 51
metric_index export_transport_errors = 52

abbrev pub Counters : Type 0
Counters = Metric → ℕ

abbrev pub add_counter : Metric → ℕ → Counters → Counters
add_counter m v c k = if metric_index m == metric_index k then (c k + v) % 2 ^ 64 else c k

abbrev pub sub_counter : Metric → ℕ → Counters → Counters
sub_counter m v c k =
    if metric_index m == metric_index k then (c k + 2 ^ 64 - v % 2 ^ 64) % 2 ^ 64 else c k
