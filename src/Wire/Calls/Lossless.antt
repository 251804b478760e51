-- ===== src/Wire/Calls/Lossless.antt =====
-- The encoder and the decoder of each operation against each other.
use Prim.Native.Nat.{◌<◌, ◌^◌}
use mathlib.Core.Path.{◌≡◌}
use state_spectre.Prelude.{length}
use state_spectre.Wire.RoundTrips.{RoundTrips}
use state_spectre.Wire.Calls.{
  RequestOf, ResponseOf, encode_request, decode_request, encode_response, decode_response,
}
use state_spectre.Wire.OpCodes.{
  OpCode, k_invalid, unlisted, k_register_rank, k_heartbeat, k_request_offload,
  k_mark_d2h_submitted, k_mark_d2h_complete, k_request_prefetch, k_mark_h2d_submitted,
  k_mark_h2d_complete, k_release_lease, k_query_location, k_batch_complete, k_shutdown, k_get_stats,
  k_register_job, k_request_canonical_evict, k_commit_canonical_object, k_seal_model_version,
  k_get_latest_sealed_version, k_get_manifest, k_pull_tensor, k_request_canonical_restore,
  k_release_canonical_restore, k_drop_canonical_version, k_release_canonical,
}
use state_spectre.Wire.Lossless.Registration.{
  RoundTrips-encode_register_rank_request, RoundTrips-encode_register_rank_response,
  RoundTrips-encode_heartbeat_request, RoundTrips-encode_heartbeat_response,
}
use state_spectre.Wire.Lossless.Offloads.{
  RoundTrips-encode_request_offload_request, RoundTrips-encode_request_offload_response,
  RoundTrips-encode_mark_d2h_submitted_request, RoundTrips-encode_mark_d2h_submitted_response,
  RoundTrips-encode_mark_d2h_complete_request, RoundTrips-encode_mark_d2h_complete_response,
}
use state_spectre.Wire.Lossless.Prefetches.{
  RoundTrips-encode_request_prefetch_request, RoundTrips-encode_request_prefetch_response,
  RoundTrips-encode_mark_h2d_submitted_request, RoundTrips-encode_mark_h2d_submitted_response,
  RoundTrips-encode_mark_h2d_complete_request, RoundTrips-encode_mark_h2d_complete_response,
}
use state_spectre.Wire.Lossless.Leases.{
  RoundTrips-encode_release_lease_request, RoundTrips-encode_release_lease_response,
  RoundTrips-encode_location_query_request, RoundTrips-encode_location_query_response,
  RoundTrips-encode_batch_complete_request, RoundTrips-encode_batch_complete_response,
  RoundTrips-encode_shutdown_request, RoundTrips-encode_shutdown_response,
  RoundTrips-encode_get_stats_request, RoundTrips-encode_get_stats_response,
}
use state_spectre.Wire.Lossless.Objects.{
  RoundTrips-encode_register_job_request, RoundTrips-encode_register_job_response,
  RoundTrips-encode_request_canonical_evict_request,
  RoundTrips-encode_request_canonical_evict_response,
  RoundTrips-encode_commit_canonical_object_request,
  RoundTrips-encode_commit_canonical_object_response,
}
use state_spectre.Wire.Lossless.Versions.{
  RoundTrips-encode_seal_model_version_request, RoundTrips-encode_seal_model_version_response,
  RoundTrips-encode_get_latest_sealed_version_request,
  RoundTrips-encode_get_latest_sealed_version_response, RoundTrips-encode_get_manifest_request,
  RoundTrips-encode_get_manifest_response,
}
use state_spectre.Wire.Lossless.Reads.{
  RoundTrips-encode_pull_tensor_request, RoundTrips-encode_pull_tensor_response,
  RoundTrips-encode_request_canonical_restore_request,
  RoundTrips-encode_request_canonical_restore_response,
  RoundTrips-encode_release_canonical_restore_request,
  RoundTrips-encode_release_canonical_restore_response,
}
use state_spectre.Wire.Lossless.Releases.{
  RoundTrips-encode_drop_canonical_version_request,
  RoundTrips-encode_drop_canonical_version_response, RoundTrips-encode_release_canonical_request,
  RoundTrips-encode_release_canonical_response,
}

-- Each vector has fewer than 2 ^ 32 elements, the most that its count can say.
abbrev pub RequestFits : (op : OpCode) → RequestOf op → Type 0
RequestFits k_batch_complete m = (length m.completions < 256 ^ 4)
RequestFits k_register_job m = (length m.label_keys < 256 ^ 4) × (length m.label_values < 256 ^ 4)
RequestFits k_seal_model_version m = (length m.expected_param_ids < 256 ^ 4)
RequestFits op m = Unit {0}

-- In a statistics reply, each key has its value as well.
abbrev pub ResponseFits : (op : OpCode) → ResponseOf op → Type 0
ResponseFits k_register_rank m = (length m.arenas < 256 ^ 4)
ResponseFits k_get_stats m = (length m.keys ≡ length m.values) × (length m.keys < 256 ^ 4)
ResponseFits k_get_manifest m = (length m.tensors < 256 ^ 4)
ResponseFits op m = Unit {0}

pub RoundTrips-encode_request :
    (op : OpCode) (m : RequestOf op)
    → RequestFits op m
    → RoundTrips (encode_request op m) (decode_request op) m
unfolding encode_request decode_request
RoundTrips-encode_request k_invalid m h = absurd m
RoundTrips-encode_request (unlisted w) m h = absurd m
RoundTrips-encode_request k_register_rank m h = RoundTrips-encode_register_rank_request m
RoundTrips-encode_request k_heartbeat m h = RoundTrips-encode_heartbeat_request m
RoundTrips-encode_request k_request_offload m h = RoundTrips-encode_request_offload_request m
RoundTrips-encode_request k_mark_d2h_submitted m h = RoundTrips-encode_mark_d2h_submitted_request m
RoundTrips-encode_request k_mark_d2h_complete m h = RoundTrips-encode_mark_d2h_complete_request m
RoundTrips-encode_request k_request_prefetch m h = RoundTrips-encode_request_prefetch_request m
RoundTrips-encode_request k_mark_h2d_submitted m h = RoundTrips-encode_mark_h2d_submitted_request m
RoundTrips-encode_request k_mark_h2d_complete m h = RoundTrips-encode_mark_h2d_complete_request m
RoundTrips-encode_request k_release_lease m h = RoundTrips-encode_release_lease_request m
RoundTrips-encode_request k_query_location m h = RoundTrips-encode_location_query_request m
RoundTrips-encode_request k_batch_complete m h = RoundTrips-encode_batch_complete_request m h
RoundTrips-encode_request k_shutdown m h = RoundTrips-encode_shutdown_request m
RoundTrips-encode_request k_get_stats m h = RoundTrips-encode_get_stats_request m
RoundTrips-encode_request k_register_job m h = RoundTrips-encode_register_job_request m h.0 h.1
RoundTrips-encode_request k_request_canonical_evict m h =
    RoundTrips-encode_request_canonical_evict_request m
RoundTrips-encode_request k_commit_canonical_object m h =
    RoundTrips-encode_commit_canonical_object_request m
RoundTrips-encode_request k_seal_model_version m h =
    RoundTrips-encode_seal_model_version_request m h
RoundTrips-encode_request k_get_latest_sealed_version m h =
    RoundTrips-encode_get_latest_sealed_version_request m
RoundTrips-encode_request k_get_manifest m h = RoundTrips-encode_get_manifest_request m
RoundTrips-encode_request k_pull_tensor m h = RoundTrips-encode_pull_tensor_request m
RoundTrips-encode_request k_request_canonical_restore m h =
    RoundTrips-encode_request_canonical_restore_request m
RoundTrips-encode_request k_release_canonical_restore m h =
    RoundTrips-encode_release_canonical_restore_request m
RoundTrips-encode_request k_drop_canonical_version m h =
    RoundTrips-encode_drop_canonical_version_request m
RoundTrips-encode_request k_release_canonical m h = RoundTrips-encode_release_canonical_request m

pub RoundTrips-encode_response :
    (op : OpCode) (m : ResponseOf op)
    → ResponseFits op m
    → RoundTrips (encode_response op m) (decode_response op) m
unfolding encode_response decode_response
RoundTrips-encode_response k_invalid m h = absurd m
RoundTrips-encode_response (unlisted w) m h = absurd m
RoundTrips-encode_response k_register_rank m h = RoundTrips-encode_register_rank_response m h
RoundTrips-encode_response k_heartbeat m h = RoundTrips-encode_heartbeat_response m
RoundTrips-encode_response k_request_offload m h = RoundTrips-encode_request_offload_response m
RoundTrips-encode_response k_mark_d2h_submitted m h =
    RoundTrips-encode_mark_d2h_submitted_response m
RoundTrips-encode_response k_mark_d2h_complete m h = RoundTrips-encode_mark_d2h_complete_response m
RoundTrips-encode_response k_request_prefetch m h = RoundTrips-encode_request_prefetch_response m
RoundTrips-encode_response k_mark_h2d_submitted m h =
    RoundTrips-encode_mark_h2d_submitted_response m
RoundTrips-encode_response k_mark_h2d_complete m h = RoundTrips-encode_mark_h2d_complete_response m
RoundTrips-encode_response k_release_lease m h = RoundTrips-encode_release_lease_response m
RoundTrips-encode_response k_query_location m h = RoundTrips-encode_location_query_response m
RoundTrips-encode_response k_batch_complete m h = RoundTrips-encode_batch_complete_response m
RoundTrips-encode_response k_shutdown m h = RoundTrips-encode_shutdown_response m
RoundTrips-encode_response k_get_stats m h = RoundTrips-encode_get_stats_response m h.0 h.1
RoundTrips-encode_response k_register_job m h = RoundTrips-encode_register_job_response m
RoundTrips-encode_response k_request_canonical_evict m h =
    RoundTrips-encode_request_canonical_evict_response m
RoundTrips-encode_response k_commit_canonical_object m h =
    RoundTrips-encode_commit_canonical_object_response m
RoundTrips-encode_response k_seal_model_version m h =
    RoundTrips-encode_seal_model_version_response m
RoundTrips-encode_response k_get_latest_sealed_version m h =
    RoundTrips-encode_get_latest_sealed_version_response m
RoundTrips-encode_response k_get_manifest m h = RoundTrips-encode_get_manifest_response m h
RoundTrips-encode_response k_pull_tensor m h = RoundTrips-encode_pull_tensor_response m
RoundTrips-encode_response k_request_canonical_restore m h =
    RoundTrips-encode_request_canonical_restore_response m
RoundTrips-encode_response k_release_canonical_restore m h =
    RoundTrips-encode_release_canonical_restore_response m
RoundTrips-encode_response k_drop_canonical_version m h =
    RoundTrips-encode_drop_canonical_version_response m
RoundTrips-encode_response k_release_canonical m h = RoundTrips-encode_release_canonical_response m
