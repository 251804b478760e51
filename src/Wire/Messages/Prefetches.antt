-- ===== src/Wire/Messages/Prefetches.antt =====
-- The messages for prefetches from pinned memory (src/common/wire.cpp and src/common/protocol.h).
use mathlib.Core.Bool.{Bool}
use state_spectre.Wire.Words.{U32, U64, Bytes}
use state_spectre.Wire.Buffer.{
  Writer, Reader, ◌>>◌, ◌>>=◌, pure, put_u32, put_u64, put_bool, put_str, get_u32, get_u64,
  get_bool, get_str,
}

pub record RequestPrefetchRequest : Type 0 where
  pub rank_id : U32
  pub rank_epoch : U64
  pub tensor_id : U64
  pub version : U64
  pub nbytes : U64
  pub gpu_id : U32
  pub numa_node : U32
  pub priority : U32
  pub flags : U64

unfoldable pub encode_request_prefetch_request : RequestPrefetchRequest → Writer
encode_request_prefetch_request m = do
  put_u32 m.rank_id
  put_u64 m.rank_epoch
  put_u64 m.tensor_id
  put_u64 m.version
  put_u64 m.nbytes
  put_u32 m.gpu_id
  put_u32 m.numa_node
  put_u32 m.priority
  put_u64 m.flags

unfoldable pub decode_request_prefetch_request : Reader RequestPrefetchRequest
decode_request_prefetch_request = do
  rank_id ← get_u32
  rank_epoch ← get_u64
  tensor_id ← get_u64
  version ← get_u64
  nbytes ← get_u64
  gpu_id ← get_u32
  numa_node ← get_u32
  priority ← get_u32
  flags ← get_u64
  pure (record {
    rank_id = rank_id;
    rank_epoch = rank_epoch;
    tensor_id = tensor_id;
    version = version;
    nbytes = nbytes;
    gpu_id = gpu_id;
    numa_node = numa_node;
    priority = priority;
    flags = flags;
  })

pub record RequestPrefetchResponse : Type 0 where
  pub ok : Bool
  pub message : Bytes
  pub lease_id : U64
  pub slot_id : U32
  pub arena_id : U64
  pub arena_offset : U64
  pub nbytes : U64
  pub state : U32
  pub ready : Bool
  pub version : U64

unfoldable pub encode_request_prefetch_response : RequestPrefetchResponse → Writer
encode_request_prefetch_response m = do
  put_bool m.ok
  put_str m.message
  put_u64 m.lease_id
  put_u32 m.slot_id
  put_u64 m.arena_id
  put_u64 m.arena_offset
  put_u64 m.nbytes
  put_u32 m.state
  put_bool m.ready
  put_u64 m.version

unfoldable pub decode_request_prefetch_response : Reader RequestPrefetchResponse
decode_request_prefetch_response = do
  ok ← get_bool
  message ← get_str
  lease_id ← get_u64
  slot_id ← get_u32
  arena_id ← get_u64
  arena_offset ← get_u64
  nbytes ← get_u64
  state ← get_u32
  ready ← get_bool
  version ← get_u64
  pure (record {
    ok = ok;
    message = message;
    lease_id = lease_id;
    slot_id = slot_id;
    arena_id = arena_id;
    arena_offset = arena_offset;
    nbytes = nbytes;
    state = state;
    ready = ready;
    version = version;
  })

pub record MarkH2dSubmittedRequest : Type 0 where
  pub rank_id : U32
  pub rank_epoch : U64
  pub lease_id : U64
  pub tensor_id : U64
  pub version : U64
  pub slot_id : U32
  pub submit_seq : U64
  pub timestamp_ns : U64

unfoldable pub encode_mark_h2d_submitted_request : MarkH2dSubmittedRequest → Writer
encode_mark_h2d_submitted_request m = do
  put_u32 m.rank_id
  put_u64 m.rank_epoch
  put_u64 m.lease_id
  put_u64 m.tensor_id
  put_u64 m.version
  put_u32 m.slot_id
  put_u64 m.submit_seq
  put_u64 m.timestamp_ns

unfoldable pub decode_mark_h2d_submitted_request : Reader MarkH2dSubmittedRequest
decode_mark_h2d_submitted_request = do
  rank_id ← get_u32
  rank_epoch ← get_u64
  lease_id ← get_u64
  tensor_id ← get_u64
  version ← get_u64
  slot_id ← get_u32
  submit_seq ← get_u64
  timestamp_ns ← get_u64
  pure (record {
    rank_id = rank_id;
    rank_epoch = rank_epoch;
    lease_id = lease_id;
    tensor_id = tensor_id;
    version = version;
    slot_id = slot_id;
    submit_seq = submit_seq;
    timestamp_ns = timestamp_ns;
  })

pub record MarkH2dSubmittedResponse : Type 0 where
  pub ok : Bool
  pub message : Bytes

unfoldable pub encode_mark_h2d_submitted_response : MarkH2dSubmittedResponse → Writer
encode_mark_h2d_submitted_response m = do put_bool m.ok; put_str m.message

unfoldable pub decode_mark_h2d_submitted_response : Reader MarkH2dSubmittedResponse
decode_mark_h2d_submitted_response = do
  ok ← get_bool
  message ← get_str
  pure (record { ok = ok; message = message })

pub record MarkH2dCompleteRequest : Type 0 where
  pub rank_id : U32
  pub rank_epoch : U64
  pub lease_id : U64
  pub tensor_id : U64
  pub version : U64
  pub slot_id : U32
  pub keep_pinned : Bool
  pub complete_seq : U64
  pub timestamp_ns : U64

unfoldable pub encode_mark_h2d_complete_request : MarkH2dCompleteRequest → Writer
encode_mark_h2d_complete_request m = do
  put_u32 m.rank_id
  put_u64 m.rank_epoch
  put_u64 m.lease_id
  put_u64 m.tensor_id
  put_u64 m.version
  put_u32 m.slot_id
  put_bool m.keep_pinned
  put_u64 m.complete_seq
  put_u64 m.timestamp_ns

unfoldable pub decode_mark_h2d_complete_request : Reader MarkH2dCompleteRequest
decode_mark_h2d_complete_request = do
  rank_id ← get_u32
  rank_epoch ← get_u64
  lease_id ← get_u64
  tensor_id ← get_u64
  version ← get_u64
  slot_id ← get_u32
  keep_pinned ← get_bool
  complete_seq ← get_u64
  timestamp_ns ← get_u64
  pure (record {
    rank_id = rank_id;
    rank_epoch = rank_epoch;
    lease_id = lease_id;
    tensor_id = tensor_id;
    version = version;
    slot_id = slot_id;
    keep_pinned = keep_pinned;
    complete_seq = complete_seq;
    timestamp_ns = timestamp_ns;
  })

pub record MarkH2dCompleteResponse : Type 0 where
  pub ok : Bool
  pub message : Bytes

unfoldable pub encode_mark_h2d_complete_response : MarkH2dCompleteResponse → Writer
encode_mark_h2d_complete_response m = do put_bool m.ok; put_str m.message

unfoldable pub decode_mark_h2d_complete_response : Reader MarkH2dCompleteResponse
decode_mark_h2d_complete_response = do
  ok ← get_bool
  message ← get_str
  pure (record { ok = ok; message = message })
