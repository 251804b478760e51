-- ===== src/Wire/Messages/Keys.antt =====
-- Of the parts that the canonical messages share (src/common/wire_v2.cpp and src/common/protocol_v2.h): records, encoders and decoders.
-- An `int32_t` is kept as its bit pattern, which is what `static_cast<uint32_t>` sends.
use mathlib.Core.Bool.{Bool}
use state_spectre.Wire.Words.{U32, U64, Bytes}
use state_spectre.Wire.Buffer.{
  Writer, Reader, ◌>>◌, ◌>>=◌, pure, put_u32, put_u64, put_bool, put_str, get_u32, get_u64,
  get_bool, get_str,
}

pub record JobKeyWire : Type 0 where
  pub tenant_id : U64
  pub job_id : U64
  pub launch_epoch : U64
  pub job_name : Bytes

unfoldable pub put_job_key : JobKeyWire → Writer
put_job_key m = do put_u64 m.tenant_id; put_u64 m.job_id; put_u64 m.launch_epoch; put_str m.job_name

unfoldable pub get_job_key : Reader JobKeyWire
get_job_key = do
  tenant_id ← get_u64
  job_id ← get_u64
  launch_epoch ← get_u64
  job_name ← get_str
  pure (record {
    tenant_id = tenant_id;
    job_id = job_id;
    launch_epoch = launch_epoch;
    job_name = job_name;
  })

pub record CanonicalTensorKeyWire : Type 0 where
  pub job : JobKeyWire
  pub model_role : U32
  pub model_version : U64
  pub param_id : U64
  pub param_fqn_hash : U64
  pub param_fqn_debug : Bytes
  pub dtype : U32
  pub layout : U32
  pub nbytes : U64
  pub shape_hash : U64
  pub stride_hash : U64
  pub pp_rank : U32
  pub tp_rank : U32
  pub ep_rank : U32
  pub etp_rank : U32
  pub expert_id : U32
  pub shard_offset : U64
  pub shard_nbytes : U64

unfoldable pub put_key : CanonicalTensorKeyWire → Writer
put_key m = do
  put_job_key m.job
  put_u32 m.model_role
  put_u64 m.model_version
  put_u64 m.param_id
  put_u64 m.param_fqn_hash
  put_str m.param_fqn_debug
  put_u32 m.dtype
  put_u32 m.layout
  put_u64 m.nbytes
  put_u64 m.shape_hash
  put_u64 m.stride_hash
  put_u32 m.pp_rank
  put_u32 m.tp_rank
  put_u32 m.ep_rank
  put_u32 m.etp_rank
  put_u32 m.expert_id
  put_u64 m.shard_offset
  put_u64 m.shard_nbytes

unfoldable pub get_key : Reader CanonicalTensorKeyWire
get_key = do
  job ← get_job_key
  model_role ← get_u32
  model_version ← get_u64
  param_id ← get_u64
  param_fqn_hash ← get_u64
  param_fqn_debug ← get_str
  dtype ← get_u32
  layout ← get_u32
  nbytes ← get_u64
  shape_hash ← get_u64
  stride_hash ← get_u64
  pp_rank ← get_u32
  tp_rank ← get_u32
  ep_rank ← get_u32
  etp_rank ← get_u32
  expert_id ← get_u32
  shard_offset ← get_u64
  shard_nbytes ← get_u64
  pure (record {
    job = job;
    model_role = model_role;
    model_version = model_version;
    param_id = param_id;
    param_fqn_hash = param_fqn_hash;
    param_fqn_debug = param_fqn_debug;
    dtype = dtype;
    layout = layout;
    nbytes = nbytes;
    shape_hash = shape_hash;
    stride_hash = stride_hash;
    pp_rank = pp_rank;
    tp_rank = tp_rank;
    ep_rank = ep_rank;
    etp_rank = etp_rank;
    expert_id = expert_id;
    shard_offset = shard_offset;
    shard_nbytes = shard_nbytes;
  })

pub record ManifestFilterWire : Type 0 where
  pub pp_present : Bool
  pub pp_rank : U32
  pub tp_present : Bool
  pub tp_rank : U32
  pub ep_present : Bool
  pub ep_rank : U32
  pub etp_present : Bool
  pub etp_rank : U32
  pub expert_present : Bool
  pub expert_id : U32

unfoldable pub put_filter : ManifestFilterWire → Writer
put_filter m = do
  put_bool m.pp_present
  put_u32 m.pp_rank
  put_bool m.tp_present
  put_u32 m.tp_rank
  put_bool m.ep_present
  put_u32 m.ep_rank
  put_bool m.etp_present
  put_u32 m.etp_rank
  put_bool m.expert_present
  put_u32 m.expert_id

unfoldable pub get_filter : Reader ManifestFilterWire
get_filter = do
  pp_present ← get_bool
  pp_rank ← get_u32
  tp_present ← get_bool
  tp_rank ← get_u32
  ep_present ← get_bool
  ep_rank ← get_u32
  etp_present ← get_bool
  etp_rank ← get_u32
  expert_present ← get_bool
  expert_id ← get_u32
  pure (record {
    pp_present = pp_present;
    pp_rank = pp_rank;
    tp_present = tp_present;
    tp_rank = tp_rank;
    ep_present = ep_present;
    ep_rank = ep_rank;
    etp_present = etp_present;
    etp_rank = etp_rank;
    expert_present = expert_present;
    expert_id = expert_id;
  })
