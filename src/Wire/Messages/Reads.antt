-- ===== src/Wire/Messages/Reads.antt =====
-- The messages for pulls and local restores (src/common/wire_v2.cpp and src/common/protocol_v2.h).
use mathlib.Core.Bool.{Bool}
use state_spectre.Wire.Words.{U32, U64, Bytes}
use state_spectre.Wire.Buffer.{
  Writer, Reader, ◌>>◌, ◌>>=◌, pure, put_u32, put_u64, put_bool, put_str, get_u32, get_u64,
  get_bool, get_str,
}
use state_spectre.Wire.Messages.Keys.{JobKeyWire, put_job_key, get_job_key}

pub record PullTensorRequest : Type 0 where
  pub job : JobKeyWire
  pub model_role : U32
  pub model_version : U64
  pub object_id : U64
  pub transport : U32
  pub target_descriptor : Bytes

unfoldable pub encode_pull_tensor_request : PullTensorRequest → Writer
encode_pull_tensor_request m = do
  put_job_key m.job
  put_u32 m.model_role
  put_u64 m.model_version
  put_u64 m.object_id
  put_u32 m.transport
  put_str m.target_descriptor

unfoldable pub decode_pull_tensor_request : Reader PullTensorRequest
decode_pull_tensor_request = do
  job ← get_job_key
  model_role ← get_u32
  model_version ← get_u64
  object_id ← get_u64
  transport ← get_u32
  target_descriptor ← get_str
  pure (record {
    job = job;
    model_role = model_role;
    model_version = model_version;
    object_id = object_id;
    transport = transport;
    target_descriptor = target_descriptor;
  })

pub record PullTensorResponse : Type 0 where
  pub ok : Bool
  pub message : Bytes
  pub object_id : U64
  pub nbytes : U64
  pub transport : U32
  pub content_hash_lo : U64
  pub content_hash_hi : U64
  pub transport_metadata : Bytes

unfoldable pub encode_pull_tensor_response : PullTensorResponse → Writer
encode_pull_tensor_response m = do
  put_bool m.ok
  put_str m.message
  put_u64 m.object_id
  put_u64 m.nbytes
  put_u32 m.transport
  put_u64 m.content_hash_lo
  put_u64 m.content_hash_hi
  put_str m.transport_metadata

unfoldable pub decode_pull_tensor_response : Reader PullTensorResponse
decode_pull_tensor_response = do
  ok ← get_bool
  message ← get_str
  object_id ← get_u64
  nbytes ← get_u64
  transport ← get_u32
  content_hash_lo ← get_u64
  content_hash_hi ← get_u64
  transport_metadata ← get_str
  pure (record {
    ok = ok;
    message = message;
    object_id = object_id;
    nbytes = nbytes;
    transport = transport;
    content_hash_lo = content_hash_lo;
    content_hash_hi = content_hash_hi;
    transport_metadata = transport_metadata;
  })

pub record RequestCanonicalRestoreRequest : Type 0 where
  pub rank_id : U32
  pub rank_epoch : U64
  pub object_id : U64
  pub gpu_id : U32
  pub numa_node : U32

unfoldable pub encode_request_canonical_restore_request : RequestCanonicalRestoreRequest → Writer
encode_request_canonical_restore_request m = do
  put_u32 m.rank_id
  put_u64 m.rank_epoch
  put_u64 m.object_id
  put_u32 m.gpu_id
  put_u32 m.numa_node

unfoldable pub decode_request_canonical_restore_request : Reader RequestCanonicalRestoreRequest
decode_request_canonical_restore_request = do
  rank_id ← get_u32
  rank_epoch ← get_u64
  object_id ← get_u64
  gpu_id ← get_u32
  numa_node ← get_u32
  pure (record {
    rank_id = rank_id;
    rank_epoch = rank_epoch;
    object_id = object_id;
    gpu_id = gpu_id;
    numa_node = numa_node;
  })

pub record RequestCanonicalRestoreResponse : Type 0 where
  pub ok : Bool
  pub message : Bytes
  pub retriable : Bool
  pub object_id : U64
  pub nbytes : U64
  pub arena_id : U64
  pub arena_offset : U64

unfoldable pub encode_request_canonical_restore_response : RequestCanonicalRestoreResponse → Writer
encode_request_canonical_restore_response m = do
  put_bool m.ok
  put_str m.message
  put_bool m.retriable
  put_u64 m.object_id
  put_u64 m.nbytes
  put_u64 m.arena_id
  put_u64 m.arena_offset

unfoldable pub decode_request_canonical_restore_response : Reader RequestCanonicalRestoreResponse
decode_request_canonical_restore_response = do
  ok ← get_bool
  message ← get_str
  retriable ← get_bool
  object_id ← get_u64
  nbytes ← get_u64
  arena_id ← get_u64
  arena_offset ← get_u64
  pure (record {
    ok = ok;
    message = message;
    retriable = retriable;
    object_id = object_id;
    nbytes = nbytes;
    arena_id = arena_id;
    arena_offset = arena_offset;
  })

pub record ReleaseCanonicalRestoreRequest : Type 0 where
  pub rank_id : U32
  pub rank_epoch : U64
  pub object_id : U64

unfoldable pub encode_release_canonical_restore_request : ReleaseCanonicalRestoreRequest → Writer
encode_release_canonical_restore_request m = do
  put_u32 m.rank_id
  put_u64 m.rank_epoch
  put_u64 m.object_id

unfoldable pub decode_release_canonical_restore_request : Reader ReleaseCanonicalRestoreRequest
decode_release_canonical_restore_request = do
  rank_id ← get_u32
  rank_epoch ← get_u64
  object_id ← get_u64
  pure (record { rank_id = rank_id; rank_epoch = rank_epoch; object_id = object_id })

pub record ReleaseCanonicalRestoreResponse : Type 0 where
  pub ok : Bool
  pub message : Bytes

unfoldable pub encode_release_canonical_restore_response : ReleaseCanonicalRestoreResponse → Writer
encode_release_canonical_restore_response m = do put_bool m.ok; put_str m.message

unfoldable pub decode_release_canonical_restore_response : Reader ReleaseCanonicalRestoreResponse
decode_release_canonical_restore_response = do
  ok ← get_bool
  message ← get_str
  pure (record { ok = ok; message = message })
