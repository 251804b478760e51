-- ===== src/Config/Sections.antt =====
-- src/daemon/config.cpp: what load_config does with the keys of each section, its unknown ones
-- included, which only log a warning.
use state_spectre.Prelude.{ℕ, List, [], ◌∷◌, if◌then◌else◌, Option, none, some}
use state_spectre.Config.{Text, text, Outcome, result, ◌>>=◌, text_eq}
use state_spectre.Config.Tree.{YamlNode, Fields, Nodes, find_field}
use state_spectre.Config.Values.{
  line_of, scalar_of, fields_of, nodes_of, to_str, to_u64, to_u32, to_multiple, to_bool, to_double,
  to_bytes, one_of, parse_target, parse_dedup_mode, parse_transport,
}
use state_spectre.Config.Daemon.{DaemonConfig}
use state_spectre.Config.Arenas.{mib, assign, set_all, in_section, list_at, arena_of}

unfoldable pub scalars : Nodes → List Text
scalars Nodes.nil = []
scalars (Nodes.cons item items) = scalar_of item ∷ scalars items

-- `stod` and `scaled` are those of Values.
module _ (Double : Type 0) (stod : Text → Option (Double × ℕ)) (scaled : Double → ℕ → ℕ) where
  unfoldable pub set_daemon : Text → YamlNode → DaemonConfig Double → Outcome (DaemonConfig Double)
  set_daemon k v c =
      if text_eq k (text "socket_path")
      then assign (to_str v) (λ x. record c { socket_path = x })
      else if text_eq k (text "control_shm_name")
      then assign (to_str v) (λ x. record c { control_shm_name = x })
      else if text_eq k (text "heartbeat_timeout_ms")
      then assign (to_u64 v) (λ x. record c { heartbeat_timeout_ms = x })
      else if text_eq k (text "completion_ring_max_ranks")
      then assign (to_u32 v) (λ x. record c { completion_ring_max_ranks = x })
      else if text_eq k (text "completion_ring_capacity")
      then assign (to_u32 v) (λ x. record c { completion_ring_capacity = x })
      else if text_eq k (text "ring_poll_us")
      then assign (to_u32 v) (λ x. record c { ring_poll_us = x })
      else result c

  unfoldable pub set_arenas : Text → YamlNode → DaemonConfig Double → Outcome (DaemonConfig Double)
  set_arenas k v c =
      if text_eq k (text "registration_policy")
      then assign (to_str v) (λ x. record c { registration_policy = x })
      else if text_eq k (text "registration_chunk_mb")
      then assign (to_multiple mib v) (λ x. record c { registration_chunk_bytes = x })
      else if text_eq k (text "allocation_granularity_mb")
      then assign (to_multiple mib v) (λ x. record c { allocation_granularity_bytes = x })
      else if text_eq k (text "per_numa")
      then result c
      else result c

  unfoldable pub set_drain_policy :
      Text → YamlNode → DaemonConfig Double → Outcome (DaemonConfig Double)
  set_drain_policy k v c =
      if text_eq k (text "target_tier")
      then assign (to_str v >>= parse_target (line_of v)) (λ x. record c { drain_target = x })
      else if text_eq k (text "drain_on_d2h_complete")
      then assign (to_bool v) (λ x. record c { drain_on_d2h_complete = x })
      else if text_eq k (text "normal_threshold")
      then assign (to_double Double stod scaled v) (λ x. record c { normal_threshold = x })
      else if text_eq k (text "priority_threshold")
      then assign (to_double Double stod scaled v) (λ x. record c { priority_threshold = x })
      else if text_eq k (text "aggressive_threshold")
      then assign (to_double Double stod scaled v) (λ x. record c { aggressive_threshold = x })
      else result c

  unfoldable pub set_nvme : Text → YamlNode → DaemonConfig Double → Outcome (DaemonConfig Double)
  set_nvme k v c =
      if text_eq k (text "enabled")
      then assign (to_bool v) (λ x. record c { nvme_enabled = x })
      else if text_eq k (text "path")
      then assign (to_str v) (λ x. record c { nvme_path = x })
      else if text_eq k (text "io_engine")
      then assign (to_str v) (λ x. record c { nvme_io_engine = x })
      else if text_eq k (text "direct_io")
      then assign (to_bool v) (λ x. record c { nvme_direct_io = x })
      else if text_eq k (text "stripe")
      then assign (to_bool v) (λ x. record c { nvme_stripe = x })
      else if text_eq k (text "stripe_count")
      then assign (to_u32 v) (λ x. record c { nvme_stripe_count = x })
      else if text_eq k (text "block_mb")
      then assign (to_multiple mib v) (λ x. record c { nvme_block_bytes = x })
      else if text_eq k (text "queue_depth")
      then assign (to_u32 v) (λ x. record c { nvme_queue_depth = x })
      else if text_eq k (text "stripe_dirs")
      then result (record c { nvme_stripe_dirs = scalars (nodes_of v) })
      else result c

  unfoldable pub set_python_api :
      Text → YamlNode → DaemonConfig Double → Outcome (DaemonConfig Double)
  set_python_api k v c =
      if text_eq k (text "default_invalidate")
      then assign (to_str v) (λ x. record c { default_invalidate = x })
      else if text_eq k (text "require_own_storage")
      then assign (to_bool v) (λ x. record c { require_own_storage = x })
      else if text_eq k (text "allow_views")
      then assign (to_bool v) (λ x. record c { allow_views = x })
      else if text_eq k (text "unsafe_autograd")
      then assign (to_bool v) (λ x. record c { unsafe_autograd = x })
      else result c

  unfoldable pub set_manager : Text → YamlNode → DaemonConfig Double → Outcome (DaemonConfig Double)
  set_manager k v c =
      if text_eq k (text "enable_canonical_store")
      then assign (to_bool v) (λ x. record c { v2_enable_canonical_store = x })
      else if text_eq k (text "enable_manifests")
      then assign (to_bool v) (λ x. record c { v2_enable_manifests = x })
      else if text_eq k (text "enable_rollout_export")
      then assign (to_bool v) (λ x. record c { v2_enable_rollout_export = x })
      else if text_eq k (text "control_tcp_port")
      then assign (to_u32 v) (λ x. record c { v2_control_tcp_port = x })
      else if text_eq k (text "daemon_socket")
      then assign (to_str v) (λ x. record c { socket_path = x })
      else result c

  unfoldable pub set_namespace :
      Text → YamlNode → DaemonConfig Double → Outcome (DaemonConfig Double)
  set_namespace k v c =
      if text_eq k (text "default_tenant_id")
      then assign (to_u64 v) (λ x. record c { v2_default_tenant_id = x })
      else if text_eq k (text "require_job_registration")
      then assign (to_bool v) (λ x. record c { v2_require_job_registration = x })
      else if text_eq k (text "include_launch_epoch")
      then assign (to_bool v) (λ x. record c { v2_include_launch_epoch = x })
      else if text_eq k (text "job_name_is_identity")
      then result c
      else result c

  unfoldable pub set_canonical_store :
      Text → YamlNode → DaemonConfig Double → Outcome (DaemonConfig Double)
  set_canonical_store k v c =
      if text_eq k (text "dedup_default_mode")
      then assign (to_str v) (λ x. record c { v2_dedup_default_mode = parse_dedup_mode x })
      else if text_eq k (text "cross_job_dedup")
      then assign (to_bool v) (λ x. record c { v2_cross_job_dedup = x })
      else if text_eq k (text "creating_policy")
      then assign (to_str v) (λ x. record c {
        v2_creating_policy = if text_eq x (text "duplicate_candidate_on_pressure") then 1 else 0;
      })
      else if text_eq k (text "duplicate_candidate_gpu_pressure_threshold")
      then assign (to_double Double stod scaled v)
          (λ x. record c { v2_duplicate_candidate_gpu_pressure_threshold = x })
      else if text_eq k (text "sampled_hash_bytes_per_gib")
      then assign (to_u64 v) (λ x. record c { v2_sampled_hash_bytes_per_gib = x })
      else if one_of (text "object_table_capacity" ∷ text "manifest_table_capacity" ∷ []) k
      then result c
      else result c

  unfoldable pub set_manifest :
      Text → YamlNode → DaemonConfig Double → Outcome (DaemonConfig Double)
  set_manifest k v c =
      if text_eq k (text "seal_requires_all_objects_valid")
      then assign (to_bool v) (λ x. record c { v2_seal_requires_all_objects_valid = x })
      else if text_eq k (text "retain_sealed_versions")
      then assign (to_u32 v) (λ x. record c { v2_retain_sealed_versions = x })
      else if one_of (text "allow_sealed_version_mutation" ∷ text "latest_pointer_update" ∷ []) k
      then result c
      else result c

  unfoldable pub set_export : Text → YamlNode → DaemonConfig Double → Outcome (DaemonConfig Double)
  set_export k v c =
      if text_eq k (text "default_transport")
      then assign (to_str v) (λ x. record c { v2_default_transport = parse_transport x })
      else if text_eq k (text "fallback_transport")
      then assign (to_str v) (λ x. record c { v2_fallback_transport = parse_transport x })
      else if text_eq k (text "use_dedicated_export_buffers")
      then assign (to_bool v) (λ x. record c { v2_use_dedicated_export_buffers = x })
      else if text_eq k (text "require_export_refcount")
      then assign (to_bool v) (λ x. record c { v2_require_export_refcount = x })
      else if text_eq k (text "max_concurrent_exports_per_job")
      then assign (to_u32 v) (λ x. record c { v2_max_concurrent_exports_per_job = x })
      else if one_of
          (text "export_buffer_pool_bytes" ∷ text "allow_direct_rdma_read_from_object_slot" ∷ []) k
      then result c
      else result c

  unfoldable pub set_quota : Text → YamlNode → DaemonConfig Double → Outcome (DaemonConfig Double)
  set_quota k v c =
      if text_eq k (text "max_pinned_bytes")
      then assign (to_bytes Double stod scaled v) (λ x. record c { v2_quota_max_pinned_bytes = x })
      else if text_eq k (text "max_pageable_bytes")
      then assign (to_bytes Double stod scaled v)
          (λ x. record c { v2_quota_max_pageable_bytes = x })
      else if text_eq k (text "max_nvme_bytes")
      then assign (to_bytes Double stod scaled v) (λ x. record c { v2_quota_max_nvme_bytes = x })
      else if text_eq k (text "max_inflight_d2h_bytes")
      then assign (to_bytes Double stod scaled v)
          (λ x. record c { v2_quota_max_inflight_d2h_bytes = x })
      else if text_eq k (text "max_inflight_export_bytes")
      then assign (to_bytes Double stod scaled v)
          (λ x. record c { v2_quota_max_inflight_export_bytes = x })
      else if text_eq k (text "priority")
      then result c
      else result c

  -- `arenas:` with its per_numa
  unfoldable pub in_arenas : Fields → DaemonConfig Double → Outcome (DaemonConfig Double)
  in_arenas root c = elim (find_field (text "arenas") root) [
    | none ↦ result c
    | some node ↦ do
      c' ← set_all set_arenas (fields_of node) c
      arenas ← list_at arena_of (text "per_numa") (fields_of node)
      result (record c' { per_numa = arenas })
  ]

  -- `quotas.default:`
  unfoldable pub in_quotas : Fields → DaemonConfig Double → Outcome (DaemonConfig Double)
  in_quotas root c = elim (find_field (text "quotas") root) [
    | none ↦ result c
    | some node ↦ in_section set_quota (text "default") (fields_of node) c
  ]

  -- all the sections, in load_config's order
  unfoldable pub set_sections : Fields → DaemonConfig Double → Outcome (DaemonConfig Double)
  set_sections root c = do
    c1 ← in_section set_daemon (text "daemon") root c
    c2 ← in_arenas root c1
    c3 ← in_section set_drain_policy (text "drain_policy") root c2
    c4 ← in_section set_nvme (text "nvme") root c3
    c5 ← in_section set_python_api (text "python_api") root c4
    c6 ← in_section set_manager (text "manager") root c5
    c7 ← in_section set_namespace (text "namespace") root c6
    c8 ← in_section set_canonical_store (text "canonical_store") root c7
    c9 ← in_section set_manifest (text "manifest") root c8
    c10 ← in_section set_export (text "export") root c9
    in_quotas root c10
