-- ===== src/Wire/Calls.antt =====
-- The types of each operation's request and response, and which encoder and decoder stand for it
-- (src/daemon/daemon.cpp, `OffloadDaemon::dispatch`; src/agent/rpc_client.cpp).
pub mod Lossless
use Prim.Native.Nat.{ℕ}
use state_spectre.Wire.Buffer.{Writer, Reader, refuse, fail}
use state_spectre.Wire.OpCodes.{
  OpCode, k_invalid, unlisted, k_register_rank, k_heartbeat, k_request_offload,
  k_mark_d2h_submitted, k_mark_d2h_complete, k_request_prefetch, k_mark_h2d_submitted,
  k_mark_h2d_complete, k_release_lease, k_query_location, k_batch_complete, k_shutdown, k_get_stats,
  k_register_job, k_request_canonical_evict, k_commit_canonical_object, k_seal_model_version,
  k_get_latest_sealed_version, k_get_manifest, k_pull_tensor, k_request_canonical_restore,
  k_release_canonical_restore, k_drop_canonical_version, k_release_canonical,
}
use state_spectre.Wire.Messages.Registration.{
  RegisterRankRequest, RegisterRankResponse, HeartbeatRequest, HeartbeatResponse,
}
use state_spectre.Wire.Messages.Offloads.{
  RequestOffloadRequest, RequestOffloadResponse, MarkD2hSubmittedRequest, MarkD2hSubmittedResponse,
  MarkD2hCompleteRequest, MarkD2hCompleteResponse,
}
use state_spectre.Wire.Messages.Prefetches.{
  RequestPrefetchRequest, RequestPrefetchResponse, MarkH2dSubmittedRequest,
  MarkH2dSubmittedResponse, MarkH2dCompleteRequest, MarkH2dCompleteResponse,
}
use state_spectre.Wire.Messages.Leases.{
  ReleaseLeaseRequest, ReleaseLeaseResponse, LocationQueryRequest, LocationQueryResponse,
  BatchCompleteRequest, BatchCompleteResponse, ShutdownRequest, ShutdownResponse, GetStatsRequest,
  GetStatsResponse,
}
use state_spectre.Wire.Messages.Objects.{
  RegisterJobRequest, RegisterJobResponse, RequestCanonicalEvictRequest,
  RequestCanonicalEvictResponse, CommitCanonicalObjectRequest, CommitCanonicalObjectResponse,
}
use state_spectre.Wire.Messages.Versions.{
  SealModelVersionRequest, SealModelVersionResponse, GetLatestSealedVersionRequest,
  GetLatestSealedVersionResponse, GetManifestRequest, GetManifestResponse,
}
use state_spectre.Wire.Messages.Reads.{
  PullTensorRequest, PullTensorResponse, RequestCanonicalRestoreRequest,
  RequestCanonicalRestoreResponse, ReleaseCanonicalRestoreRequest, ReleaseCanonicalRestoreResponse,
}
use state_spectre.Wire.Messages.Releases.{
  DropCanonicalVersionRequest, DropCanonicalVersionResponse, ReleaseCanonicalRequest,
  ReleaseCanonicalResponse,
}
use state_spectre.Wire.Messages.Registration.{
  encode_register_rank_request, decode_register_rank_request, encode_register_rank_response,
  decode_register_rank_response, encode_heartbeat_request, decode_heartbeat_request,
  encode_heartbeat_response, decode_heartbeat_response,
}
use state_spectre.Wire.Messages.Offloads.{
  encode_request_offload_request, decode_request_offload_request, encode_request_offload_response,
  decode_request_offload_response, encode_mark_d2h_submitted_request,
  decode_mark_d2h_submitted_request, encode_mark_d2h_submitted_response,
  decode_mark_d2h_submitted_response, encode_mark_d2h_complete_request,
  decode_mark_d2h_complete_request, encode_mark_d2h_complete_response,
  decode_mark_d2h_complete_response,
}
use state_spectre.Wire.Messages.Prefetches.{
  encode_request_prefetch_request, decode_request_prefetch_request,
  encode_request_prefetch_response, decode_request_prefetch_response,
  encode_mark_h2d_submitted_request, decode_mark_h2d_submitted_request,
  encode_mark_h2d_submitted_response, decode_mark_h2d_submitted_response,
  encode_mark_h2d_complete_request, decode_mark_h2d_complete_request,
  encode_mark_h2d_complete_response, decode_mark_h2d_complete_response,
}
use state_spectre.Wire.Messages.Leases.{
  encode_release_lease_request, decode_release_lease_request, encode_release_lease_response,
  decode_release_lease_response, encode_location_query_request, decode_location_query_request,
  encode_location_query_response, decode_location_query_response, encode_batch_complete_request,
  decode_batch_complete_request, encode_batch_complete_response, decode_batch_complete_response,
  encode_shutdown_request, decode_shutdown_request, encode_shutdown_response,
  decode_shutdown_response, encode_get_stats_request, decode_get_stats_request,
  encode_get_stats_response, decode_get_stats_response,
}
use state_spectre.Wire.Messages.Objects.{
  encode_register_job_request, decode_register_job_request, encode_register_job_response,
  decode_register_job_response, encode_request_canonical_evict_request,
  decode_request_canonical_evict_request, encode_request_canonical_evict_response,
  decode_request_canonical_evict_response, encode_commit_canonical_object_request,
  decode_commit_canonical_object_request, encode_commit_canonical_object_response,
  decode_commit_canonical_object_response,
}
use state_spectre.Wire.Messages.Versions.{
  encode_seal_model_version_request, decode_seal_model_version_request,
  encode_seal_model_version_response, decode_seal_model_version_response,
  encode_get_latest_sealed_version_request, decode_get_latest_sealed_version_request,
  encode_get_latest_sealed_version_response, decode_get_latest_sealed_version_response,
  encode_get_manifest_request, decode_get_manifest_request, encode_get_manifest_response,
  decode_get_manifest_response,
}
use state_spectre.Wire.Messages.Reads.{
  encode_pull_tensor_request, decode_pull_tensor_request, encode_pull_tensor_response,
  decode_pull_tensor_response, encode_request_canonical_restore_request,
  decode_request_canonical_restore_request, encode_request_canonical_restore_response,
  decode_request_canonical_restore_response, encode_release_canonical_restore_request,
  decode_release_canonical_restore_request, encode_release_canonical_restore_response,
  decode_release_canonical_restore_response,
}
use state_spectre.Wire.Messages.Releases.{
  encode_drop_canonical_version_request, decode_drop_canonical_version_request,
  encode_drop_canonical_version_response, decode_drop_canonical_version_response,
  encode_release_canonical_request, decode_release_canonical_request,
  encode_release_canonical_response, decode_release_canonical_response,
}

abbrev pub RequestOf : OpCode → Type 0
RequestOf k_invalid = ⊥
RequestOf (unlisted w) = ⊥
RequestOf k_register_rank = RegisterRankRequest
RequestOf k_heartbeat = HeartbeatRequest
RequestOf k_request_offload = RequestOffloadRequest
RequestOf k_mark_d2h_submitted = MarkD2hSubmittedRequest
RequestOf k_mark_d2h_complete = MarkD2hCompleteRequest
RequestOf k_request_prefetch = RequestPrefetchRequest
RequestOf k_mark_h2d_submitted = MarkH2dSubmittedRequest
RequestOf k_mark_h2d_complete = MarkH2dCompleteRequest
RequestOf k_release_lease = ReleaseLeaseRequest
RequestOf k_query_location = LocationQueryRequest
RequestOf k_batch_complete = BatchCompleteRequest
RequestOf k_shutdown = ShutdownRequest
RequestOf k_get_stats = GetStatsRequest
RequestOf k_register_job = RegisterJobRequest
RequestOf k_request_canonical_evict = RequestCanonicalEvictRequest
RequestOf k_commit_canonical_object = CommitCanonicalObjectRequest
RequestOf k_seal_model_version = SealModelVersionRequest
RequestOf k_get_latest_sealed_version = GetLatestSealedVersionRequest
RequestOf k_get_manifest = GetManifestRequest
RequestOf k_pull_tensor = PullTensorRequest
RequestOf k_request_canonical_restore = RequestCanonicalRestoreRequest
RequestOf k_release_canonical_restore = ReleaseCanonicalRestoreRequest
RequestOf k_drop_canonical_version = DropCanonicalVersionRequest
RequestOf k_release_canonical = ReleaseCanonicalRequest

abbrev pub ResponseOf : OpCode → Type 0
ResponseOf k_invalid = ⊥
ResponseOf (unlisted w) = ⊥
ResponseOf k_register_rank = RegisterRankResponse
ResponseOf k_heartbeat = HeartbeatResponse
ResponseOf k_request_offload = RequestOffloadResponse
ResponseOf k_mark_d2h_submitted = MarkD2hSubmittedResponse
ResponseOf k_mark_d2h_complete = MarkD2hCompleteResponse
ResponseOf k_request_prefetch = RequestPrefetchResponse
ResponseOf k_mark_h2d_submitted = MarkH2dSubmittedResponse
ResponseOf k_mark_h2d_complete = MarkH2dCompleteResponse
ResponseOf k_release_lease = ReleaseLeaseResponse
ResponseOf k_query_location = LocationQueryResponse
ResponseOf k_batch_complete = BatchCompleteResponse
ResponseOf k_shutdown = ShutdownResponse
ResponseOf k_get_stats = GetStatsResponse
ResponseOf k_register_job = RegisterJobResponse
ResponseOf k_request_canonical_evict = RequestCanonicalEvictResponse
ResponseOf k_commit_canonical_object = CommitCanonicalObjectResponse
ResponseOf k_seal_model_version = SealModelVersionResponse
ResponseOf k_get_latest_sealed_version = GetLatestSealedVersionResponse
ResponseOf k_get_manifest = GetManifestResponse
ResponseOf k_pull_tensor = PullTensorResponse
ResponseOf k_request_canonical_restore = RequestCanonicalRestoreResponse
ResponseOf k_release_canonical_restore = ReleaseCanonicalRestoreResponse
ResponseOf k_drop_canonical_version = DropCanonicalVersionResponse
ResponseOf k_release_canonical = ReleaseCanonicalResponse

-- what the methods of `RpcClient` send
unfoldable pub encode_request : (op : OpCode) → RequestOf op → Writer
encode_request k_invalid m = refuse
encode_request (unlisted w) m = refuse
encode_request k_register_rank m = encode_register_rank_request m
encode_request k_heartbeat m = encode_heartbeat_request m
encode_request k_request_offload m = encode_request_offload_request m
encode_request k_mark_d2h_submitted m = encode_mark_d2h_submitted_request m
encode_request k_mark_d2h_complete m = encode_mark_d2h_complete_request m
encode_request k_request_prefetch m = encode_request_prefetch_request m
encode_request k_mark_h2d_submitted m = encode_mark_h2d_submitted_request m
encode_request k_mark_h2d_complete m = encode_mark_h2d_complete_request m
encode_request k_release_lease m = encode_release_lease_request m
encode_request k_query_location m = encode_location_query_request m
encode_request k_batch_complete m = encode_batch_complete_request m
encode_request k_shutdown m = encode_shutdown_request m
encode_request k_get_stats m = encode_get_stats_request m
encode_request k_register_job m = encode_register_job_request m
encode_request k_request_canonical_evict m = encode_request_canonical_evict_request m
encode_request k_commit_canonical_object m = encode_commit_canonical_object_request m
encode_request k_seal_model_version m = encode_seal_model_version_request m
encode_request k_get_latest_sealed_version m = encode_get_latest_sealed_version_request m
encode_request k_get_manifest m = encode_get_manifest_request m
encode_request k_pull_tensor m = encode_pull_tensor_request m
encode_request k_request_canonical_restore m = encode_request_canonical_restore_request m
encode_request k_release_canonical_restore m = encode_release_canonical_restore_request m
encode_request k_drop_canonical_version m = encode_drop_canonical_version_request m
encode_request k_release_canonical m = encode_release_canonical_request m

-- what the cases of `dispatch` read
unfoldable pub decode_request : (op : OpCode) → Reader (RequestOf op)
decode_request k_invalid = fail
decode_request (unlisted w) = fail
decode_request k_register_rank = decode_register_rank_request
decode_request k_heartbeat = decode_heartbeat_request
decode_request k_request_offload = decode_request_offload_request
decode_request k_mark_d2h_submitted = decode_mark_d2h_submitted_request
decode_request k_mark_d2h_complete = decode_mark_d2h_complete_request
decode_request k_request_prefetch = decode_request_prefetch_request
decode_request k_mark_h2d_submitted = decode_mark_h2d_submitted_request
decode_request k_mark_h2d_complete = decode_mark_h2d_complete_request
decode_request k_release_lease = decode_release_lease_request
decode_request k_query_location = decode_location_query_request
decode_request k_batch_complete = decode_batch_complete_request
decode_request k_shutdown = decode_shutdown_request
decode_request k_get_stats = decode_get_stats_request
decode_request k_register_job = decode_register_job_request
decode_request k_request_canonical_evict = decode_request_canonical_evict_request
decode_request k_commit_canonical_object = decode_commit_canonical_object_request
decode_request k_seal_model_version = decode_seal_model_version_request
decode_request k_get_latest_sealed_version = decode_get_latest_sealed_version_request
decode_request k_get_manifest = decode_get_manifest_request
decode_request k_pull_tensor = decode_pull_tensor_request
decode_request k_request_canonical_restore = decode_request_canonical_restore_request
decode_request k_release_canonical_restore = decode_release_canonical_restore_request
decode_request k_drop_canonical_version = decode_drop_canonical_version_request
decode_request k_release_canonical = decode_release_canonical_request

-- what the cases of `dispatch` send
unfoldable pub encode_response : (op : OpCode) → ResponseOf op → Writer
encode_response k_invalid m = refuse
encode_response (unlisted w) m = refuse
encode_response k_register_rank m = encode_register_rank_response m
encode_response k_heartbeat m = encode_heartbeat_response m
encode_response k_request_offload m = encode_request_offload_response m
encode_response k_mark_d2h_submitted m = encode_mark_d2h_submitted_response m
encode_response k_mark_d2h_complete m = encode_mark_d2h_complete_response m
encode_response k_request_prefetch m = encode_request_prefetch_response m
encode_response k_mark_h2d_submitted m = encode_mark_h2d_submitted_response m
encode_response k_mark_h2d_complete m = encode_mark_h2d_complete_response m
encode_response k_release_lease m = encode_release_lease_response m
encode_response k_query_location m = encode_location_query_response m
encode_response k_batch_complete m = encode_batch_complete_response m
encode_response k_shutdown m = encode_shutdown_response m
encode_response k_get_stats m = encode_get_stats_response m
encode_response k_register_job m = encode_register_job_response m
encode_response k_request_canonical_evict m = encode_request_canonical_evict_response m
encode_response k_commit_canonical_object m = encode_commit_canonical_object_response m
encode_response k_seal_model_version m = encode_seal_model_version_response m
encode_response k_get_latest_sealed_version m = encode_get_latest_sealed_version_response m
encode_response k_get_manifest m = encode_get_manifest_response m
encode_response k_pull_tensor m = encode_pull_tensor_response m
encode_response k_request_canonical_restore m = encode_request_canonical_restore_response m
encode_response k_release_canonical_restore m = encode_release_canonical_restore_response m
encode_response k_drop_canonical_version m = encode_drop_canonical_version_response m
encode_response k_release_canonical m = encode_release_canonical_response m

-- what the methods of `RpcClient` read
unfoldable pub decode_response : (op : OpCode) → Reader (ResponseOf op)
decode_response k_invalid = fail
decode_response (unlisted w) = fail
decode_response k_register_rank = decode_register_rank_response
decode_response k_heartbeat = decode_heartbeat_response
decode_response k_request_offload = decode_request_offload_response
decode_response k_mark_d2h_submitted = decode_mark_d2h_submitted_response
decode_response k_mark_d2h_complete = decode_mark_d2h_complete_response
decode_response k_request_prefetch = decode_request_prefetch_response
decode_response k_mark_h2d_submitted = decode_mark_h2d_submitted_response
decode_response k_mark_h2d_complete = decode_mark_h2d_complete_response
decode_response k_release_lease = decode_release_lease_response
decode_response k_query_location = decode_location_query_response
decode_response k_batch_complete = decode_batch_complete_response
decode_response k_shutdown = decode_shutdown_response
decode_response k_get_stats = decode_get_stats_response
decode_response k_register_job = decode_register_job_response
decode_response k_request_canonical_evict = decode_request_canonical_evict_response
decode_response k_commit_canonical_object = decode_commit_canonical_object_response
decode_response k_seal_model_version = decode_seal_model_version_response
decode_response k_get_latest_sealed_version = decode_get_latest_sealed_version_response
decode_response k_get_manifest = decode_get_manifest_response
decode_response k_pull_tensor = decode_pull_tensor_response
decode_response k_request_canonical_restore = decode_request_canonical_restore_response
decode_response k_release_canonical_restore = decode_release_canonical_restore_response
decode_response k_drop_canonical_version = decode_drop_canonical_version_response
decode_response k_release_canonical = decode_release_canonical_response
