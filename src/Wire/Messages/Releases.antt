-- ===== src/Wire/Messages/Releases.antt =====
-- The messages for dropped versions and released holds (src/common/wire_v2.cpp and src/common/protocol_v2.h).
use mathlib.Core.Bool.{Bool}
use state_spectre.Wire.Words.{U32, U64, Bytes}
use state_spectre.Wire.Buffer.{
  Writer, Reader, ◌>>◌, ◌>>=◌, pure, put_u32, put_u64, put_bool, put_str, get_u32, get_u64,
  get_bool, get_str,
}
use state_spectre.Wire.Messages.Keys.{JobKeyWire, put_job_key, get_job_key}

pub record DropCanonicalVersionRequest : Type 0 where
  pub job : JobKeyWire
  pub model_role : U32
  pub model_version : U64

unfoldable pub encode_drop_canonical_version_request : DropCanonicalVersionRequest → Writer
encode_drop_canonical_version_request m = do
  put_job_key m.job
  put_u32 m.model_role
  put_u64 m.model_version

unfoldable pub decode_drop_canonical_version_request : Reader DropCanonicalVersionRequest
decode_drop_canonical_version_request = do
  job ← get_job_key
  model_role ← get_u32
  model_version ← get_u64
  pure (record { job = job; model_role = model_role; model_version = model_version })

pub record DropCanonicalVersionResponse : Type 0 where
  pub ok : Bool
  pub message : Bytes
  pub dropped_count : U64
  pub skipped_inflight : U64
  pub bytes_freed : U64

unfoldable pub encode_drop_canonical_version_response : DropCanonicalVersionResponse → Writer
encode_drop_canonical_version_response m = do
  put_bool m.ok
  put_str m.message
  put_u64 m.dropped_count
  put_u64 m.skipped_inflight
  put_u64 m.bytes_freed

unfoldable pub decode_drop_canonical_version_response : Reader DropCanonicalVersionResponse
decode_drop_canonical_version_response = do
  ok ← get_bool
  message ← get_str
  dropped_count ← get_u64
  skipped_inflight ← get_u64
  bytes_freed ← get_u64
  pure (record {
    ok = ok;
    message = message;
    dropped_count = dropped_count;
    skipped_inflight = skipped_inflight;
    bytes_freed = bytes_freed;
  })

pub record ReleaseCanonicalRequest : Type 0 where
  pub rank_id : U32
  pub rank_epoch : U64
  pub job : JobKeyWire
  pub model_role : U32
  pub model_version : U64
  pub object_id : U64

unfoldable pub encode_release_canonical_request : ReleaseCanonicalRequest → Writer
encode_release_canonical_request m = do
  put_u32 m.rank_id
  put_u64 m.rank_epoch
  put_job_key m.job
  put_u32 m.model_role
  put_u64 m.model_version
  put_u64 m.object_id

unfoldable pub decode_release_canonical_request : Reader ReleaseCanonicalRequest
decode_release_canonical_request = do
  rank_id ← get_u32
  rank_epoch ← get_u64
  job ← get_job_key
  model_role ← get_u32
  model_version ← get_u64
  object_id ← get_u64
  pure (record {
    rank_id = rank_id;
    rank_epoch = rank_epoch;
    job = job;
    model_role = model_role;
    model_version = model_version;
    object_id = object_id;
  })

pub record ReleaseCanonicalResponse : Type 0 where
  pub ok : Bool
  pub message : Bytes
  pub released_count : U64
  pub freed_count : U64
  pub bytes_freed : U64

unfoldable pub encode_release_canonical_response : ReleaseCanonicalResponse → Writer
encode_release_canonical_response m = do
  put_bool m.ok
  put_str m.message
  put_u64 m.released_count
  put_u64 m.freed_count
  put_u64 m.bytes_freed

unfoldable pub decode_release_canonical_response : Reader ReleaseCanonicalResponse
decode_release_canonical_response = do
  ok ← get_bool
  message ← get_str
  released_count ← get_u64
  freed_count ← get_u64
  bytes_freed ← get_u64
  pure (record {
    ok = ok;
    message = message;
    released_count = released_count;
    freed_count = freed_count;
    bytes_freed = bytes_freed;
  })
