-- ===== src/Wire/Messages/Versions.antt =====
-- The messages for sealed versions and manifests (src/common/wire_v2.cpp and src/common/protocol_v2.h).
use mathlib.Core.Bool.{Bool}
use mathlib.Core.List.{List}
use state_spectre.Wire.Words.{U32, U64, Bytes}
use state_spectre.Wire.Buffer.{
  Writer, Reader, ◌>>◌, ◌>>=◌, pure, put_u32, put_u64, put_bool, put_str, put_list, get_u32,
  get_u64, get_bool, get_str, get_list,
}
use state_spectre.Wire.Messages.Keys.{
  JobKeyWire, CanonicalTensorKeyWire, ManifestFilterWire, put_job_key, get_job_key, put_key,
  get_key, put_filter, get_filter,
}

pub record SealModelVersionRequest : Type 0 where
  pub job : JobKeyWire
  pub model_role : U32
  pub model_version : U64
  pub fail_if_missing : Bool
  pub expected_param_ids : List U64
  pub promote : Bool

unfoldable pub encode_seal_model_version_request : SealModelVersionRequest → Writer
encode_seal_model_version_request m = do
  put_job_key m.job
  put_u32 m.model_role
  put_u64 m.model_version
  put_bool m.fail_if_missing
  put_list put_u64 m.expected_param_ids
  put_bool m.promote

unfoldable pub decode_seal_model_version_request : Reader SealModelVersionRequest
decode_seal_model_version_request = do
  job ← get_job_key
  model_role ← get_u32
  model_version ← get_u64
  fail_if_missing ← get_bool
  expected_param_ids ← get_list get_u64
  promote ← get_bool
  pure (record {
    job = job;
    model_role = model_role;
    model_version = model_version;
    fail_if_missing = fail_if_missing;
    expected_param_ids = expected_param_ids;
    promote = promote;
  })

pub record SealModelVersionResponse : Type 0 where
  pub ok : Bool
  pub message : Bytes
  pub state : U32
  pub tensor_count : U64
  pub total_nbytes : U64
  pub manifest_hash_lo : U64
  pub manifest_hash_hi : U64

unfoldable pub encode_seal_model_version_response : SealModelVersionResponse → Writer
encode_seal_model_version_response m = do
  put_bool m.ok
  put_str m.message
  put_u32 m.state
  put_u64 m.tensor_count
  put_u64 m.total_nbytes
  put_u64 m.manifest_hash_lo
  put_u64 m.manifest_hash_hi

unfoldable pub decode_seal_model_version_response : Reader SealModelVersionResponse
decode_seal_model_version_response = do
  ok ← get_bool
  message ← get_str
  state ← get_u32
  tensor_count ← get_u64
  total_nbytes ← get_u64
  manifest_hash_lo ← get_u64
  manifest_hash_hi ← get_u64
  pure (record {
    ok = ok;
    message = message;
    state = state;
    tensor_count = tensor_count;
    total_nbytes = total_nbytes;
    manifest_hash_lo = manifest_hash_lo;
    manifest_hash_hi = manifest_hash_hi;
  })

pub record GetLatestSealedVersionRequest : Type 0 where
  pub job : JobKeyWire
  pub model_role : U32

unfoldable pub encode_get_latest_sealed_version_request : GetLatestSealedVersionRequest → Writer
encode_get_latest_sealed_version_request m = do put_job_key m.job; put_u32 m.model_role

unfoldable pub decode_get_latest_sealed_version_request : Reader GetLatestSealedVersionRequest
decode_get_latest_sealed_version_request = do
  job ← get_job_key
  model_role ← get_u32
  pure (record { job = job; model_role = model_role })

pub record GetLatestSealedVersionResponse : Type 0 where
  pub ok : Bool
  pub message : Bytes
  pub found : Bool
  pub model_version : U64

unfoldable pub encode_get_latest_sealed_version_response : GetLatestSealedVersionResponse → Writer
encode_get_latest_sealed_version_response m = do
  put_bool m.ok
  put_str m.message
  put_bool m.found
  put_u64 m.model_version

unfoldable pub decode_get_latest_sealed_version_response : Reader GetLatestSealedVersionResponse
decode_get_latest_sealed_version_response = do
  ok ← get_bool
  message ← get_str
  found ← get_bool
  model_version ← get_u64
  pure (record { ok = ok; message = message; found = found; model_version = model_version })

pub record GetManifestRequest : Type 0 where
  pub job : JobKeyWire
  pub model_role : U32
  pub model_version : U64
  pub filter : ManifestFilterWire

unfoldable pub encode_get_manifest_request : GetManifestRequest → Writer
encode_get_manifest_request m = do
  put_job_key m.job
  put_u32 m.model_role
  put_u64 m.model_version
  put_filter m.filter

unfoldable pub decode_get_manifest_request : Reader GetManifestRequest
decode_get_manifest_request = do
  job ← get_job_key
  model_role ← get_u32
  model_version ← get_u64
  filter ← get_filter
  pure (record {
    job = job;
    model_role = model_role;
    model_version = model_version;
    filter = filter;
  })

pub record TensorManifestEntryWire : Type 0 where
  pub key : CanonicalTensorKeyWire
  pub object_id : U64
  pub nbytes : U64
  pub content_hash_lo : U64
  pub content_hash_hi : U64
  pub location_hint : Bytes

unfoldable pub put_tensor_manifest_entry : TensorManifestEntryWire → Writer
put_tensor_manifest_entry m = do
  put_key m.key
  put_u64 m.object_id
  put_u64 m.nbytes
  put_u64 m.content_hash_lo
  put_u64 m.content_hash_hi
  put_str m.location_hint

unfoldable pub get_tensor_manifest_entry : Reader TensorManifestEntryWire
get_tensor_manifest_entry = do
  key ← get_key
  object_id ← get_u64
  nbytes ← get_u64
  content_hash_lo ← get_u64
  content_hash_hi ← get_u64
  location_hint ← get_str
  pure (record {
    key = key;
    object_id = object_id;
    nbytes = nbytes;
    content_hash_lo = content_hash_lo;
    content_hash_hi = content_hash_hi;
    location_hint = location_hint;
  })

pub record GetManifestResponse : Type 0 where
  pub ok : Bool
  pub message : Bytes
  pub job : JobKeyWire
  pub model_role : U32
  pub model_version : U64
  pub state : U32
  pub tensors : List TensorManifestEntryWire

unfoldable pub encode_get_manifest_response : GetManifestResponse → Writer
encode_get_manifest_response m = do
  put_bool m.ok
  put_str m.message
  put_job_key m.job
  put_u32 m.model_role
  put_u64 m.model_version
  put_u32 m.state
  put_list put_tensor_manifest_entry m.tensors

unfoldable pub decode_get_manifest_response : Reader GetManifestResponse
decode_get_manifest_response = do
  ok ← get_bool
  message ← get_str
  job ← get_job_key
  model_role ← get_u32
  model_version ← get_u64
  state ← get_u32
  tensors ← get_list get_tensor_manifest_entry
  pure (record {
    ok = ok;
    message = message;
    job = job;
    model_role = model_role;
    model_version = model_version;
    state = state;
    tensors = tensors;
  })
