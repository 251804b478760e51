-- ===== src/Wire/Messages/Objects.antt =====
-- The messages for jobs and canonical objects (src/common/wire_v2.cpp and src/common/protocol_v2.h).
use mathlib.Core.Bool.{Bool}
use mathlib.Core.List.{List}
use state_spectre.Wire.Words.{U32, U64, Bytes}
use state_spectre.Wire.Buffer.{
  Writer, Reader, ◌>>◌, ◌>>=◌, pure, put_u32, put_u64, put_bool, put_str, put_list, get_u32,
  get_u64, get_bool, get_str, get_list,
}
use state_spectre.Wire.Messages.Keys.{
  JobKeyWire, CanonicalTensorKeyWire, put_job_key, get_job_key, put_key, get_key,
}

pub record RegisterJobRequest : Type 0 where
  pub tenant_id : U64
  pub job_name : Bytes
  pub scheduler_job_id : U64
  pub label_keys : List Bytes
  pub label_values : List Bytes

unfoldable pub encode_register_job_request : RegisterJobRequest → Writer
encode_register_job_request m = do
  put_u64 m.tenant_id
  put_str m.job_name
  put_u64 m.scheduler_job_id
  put_list put_str m.label_keys
  put_list put_str m.label_values

unfoldable pub decode_register_job_request : Reader RegisterJobRequest
decode_register_job_request = do
  tenant_id ← get_u64
  job_name ← get_str
  scheduler_job_id ← get_u64
  label_keys ← get_list get_str
  label_values ← get_list get_str
  pure (record {
    tenant_id = tenant_id;
    job_name = job_name;
    scheduler_job_id = scheduler_job_id;
    label_keys = label_keys;
    label_values = label_values;
  })

pub record RegisterJobResponse : Type 0 where
  pub ok : Bool
  pub message : Bytes
  pub job : JobKeyWire
  pub control_generation : U64

unfoldable pub encode_register_job_response : RegisterJobResponse → Writer
encode_register_job_response m = do
  put_bool m.ok
  put_str m.message
  put_job_key m.job
  put_u64 m.control_generation

unfoldable pub decode_register_job_response : Reader RegisterJobResponse
decode_register_job_response = do
  ok ← get_bool
  message ← get_str
  job ← get_job_key
  control_generation ← get_u64
  pure (record { ok = ok; message = message; job = job; control_generation = control_generation })

pub record RequestCanonicalEvictRequest : Type 0 where
  pub rank_id : U32
  pub rank_epoch : U64
  pub key : CanonicalTensorKeyWire
  pub local_tensor_id : U64
  pub local_version : U64
  pub destructive : Bool
  pub attach_if_exists : Bool
  pub create_if_missing : Bool
  pub dedup_mode : U32
  pub allow_duplicate_candidate : Bool
  pub alignment : U32
  pub priority : U32
  pub gpu_id : U32
  pub numa_node : U32

unfoldable pub encode_request_canonical_evict_request : RequestCanonicalEvictRequest → Writer
encode_request_canonical_evict_request m = do
  put_u32 m.rank_id
  put_u64 m.rank_epoch
  put_key m.key
  put_u64 m.local_tensor_id
  put_u64 m.local_version
  put_bool m.destructive
  put_bool m.attach_if_exists
  put_bool m.create_if_missing
  put_u32 m.dedup_mode
  put_bool m.allow_duplicate_candidate
  put_u32 m.alignment
  put_u32 m.priority
  put_u32 m.gpu_id
  put_u32 m.numa_node

unfoldable pub decode_request_canonical_evict_request : Reader RequestCanonicalEvictRequest
decode_request_canonical_evict_request = do
  rank_id ← get_u32
  rank_epoch ← get_u64
  key ← get_key
  local_tensor_id ← get_u64
  local_version ← get_u64
  destructive ← get_bool
  attach_if_exists ← get_bool
  create_if_missing ← get_bool
  dedup_mode ← get_u32
  allow_duplicate_candidate ← get_bool
  alignment ← get_u32
  priority ← get_u32
  gpu_id ← get_u32
  numa_node ← get_u32
  pure (record {
    rank_id = rank_id;
    rank_epoch = rank_epoch;
    key = key;
    local_tensor_id = local_tensor_id;
    local_version = local_version;
    destructive = destructive;
    attach_if_exists = attach_if_exists;
    create_if_missing = create_if_missing;
    dedup_mode = dedup_mode;
    allow_duplicate_candidate = allow_duplicate_candidate;
    alignment = alignment;
    priority = priority;
    gpu_id = gpu_id;
    numa_node = numa_node;
  })

pub record RequestCanonicalEvictResponse : Type 0 where
  pub ok : Bool
  pub message : Bytes
  pub action : U32
  pub object_id : U64
  pub lease_id : U64
  pub slot_id : U32
  pub arena_id : U64
  pub arena_offset : U64
  pub capacity : U64
  pub synthetic_tid : U64

unfoldable pub encode_request_canonical_evict_response : RequestCanonicalEvictResponse → Writer
encode_request_canonical_evict_response m = do
  put_bool m.ok
  put_str m.message
  put_u32 m.action
  put_u64 m.object_id
  put_u64 m.lease_id
  put_u32 m.slot_id
  put_u64 m.arena_id
  put_u64 m.arena_offset
  put_u64 m.capacity
  put_u64 m.synthetic_tid

unfoldable pub decode_request_canonical_evict_response : Reader RequestCanonicalEvictResponse
decode_request_canonical_evict_response = do
  ok ← get_bool
  message ← get_str
  action ← get_u32
  object_id ← get_u64
  lease_id ← get_u64
  slot_id ← get_u32
  arena_id ← get_u64
  arena_offset ← get_u64
  capacity ← get_u64
  synthetic_tid ← get_u64
  pure (record {
    ok = ok;
    message = message;
    action = action;
    object_id = object_id;
    lease_id = lease_id;
    slot_id = slot_id;
    arena_id = arena_id;
    arena_offset = arena_offset;
    capacity = capacity;
    synthetic_tid = synthetic_tid;
  })

pub record CommitCanonicalObjectRequest : Type 0 where
  pub rank_id : U32
  pub rank_epoch : U64
  pub object_id : U64
  pub lease_id : U64
  pub slot_id : U32
  pub content_hash_lo : U64
  pub content_hash_hi : U64

unfoldable pub encode_commit_canonical_object_request : CommitCanonicalObjectRequest → Writer
encode_commit_canonical_object_request m = do
  put_u32 m.rank_id
  put_u64 m.rank_epoch
  put_u64 m.object_id
  put_u64 m.lease_id
  put_u32 m.slot_id
  put_u64 m.content_hash_lo
  put_u64 m.content_hash_hi

unfoldable pub decode_commit_canonical_object_request : Reader CommitCanonicalObjectRequest
decode_commit_canonical_object_request = do
  rank_id ← get_u32
  rank_epoch ← get_u64
  object_id ← get_u64
  lease_id ← get_u64
  slot_id ← get_u32
  content_hash_lo ← get_u64
  content_hash_hi ← get_u64
  pure (record {
    rank_id = rank_id;
    rank_epoch = rank_epoch;
    object_id = object_id;
    lease_id = lease_id;
    slot_id = slot_id;
    content_hash_lo = content_hash_lo;
    content_hash_hi = content_hash_hi;
  })

pub record CommitCanonicalObjectResponse : Type 0 where
  pub ok : Bool
  pub message : Bytes
  pub object_id : U64
  pub won : Bool

unfoldable pub encode_commit_canonical_object_response : CommitCanonicalObjectResponse → Writer
encode_commit_canonical_object_response m = do
  put_bool m.ok
  put_str m.message
  put_u64 m.object_id
  put_bool m.won

unfoldable pub decode_commit_canonical_object_response : Reader CommitCanonicalObjectResponse
decode_commit_canonical_object_response = do
  ok ← get_bool
  message ← get_str
  object_id ← get_u64
  won ← get_bool
  pure (record { ok = ok; message = message; object_id = object_id; won = won })
