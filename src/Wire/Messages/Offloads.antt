-- ===== src/Wire/Messages/Offloads.antt =====
-- The messages for offloads to pinned memory (src/common/wire.cpp and src/common/protocol.h).
use mathlib.Core.Bool.{Bool}
use state_spectre.Wire.Words.{U32, U64, Bytes}
use state_spectre.Wire.Buffer.{
  Writer, Reader, ◌>>◌, ◌>>=◌, pure, put_u32, put_u64, put_bool, put_str, get_u32, get_u64,
  get_bool, get_str,
}

pub record RequestOffloadRequest : Type 0 where
  pub rank_id : U32
  pub rank_epoch : U64
  pub tensor_id : U64
  pub version : U64
  pub nbytes : U64
  pub gpu_id : U32
  pub numa_node : U32
  pub alignment : U32
  pub priority : U32
  pub flags : U64
  pub debug_name : Bytes

unfoldable pub encode_request_offload_request : RequestOffloadRequest → Writer
encode_request_offload_request m = do
  put_u32 m.rank_id
  put_u64 m.rank_epoch
  put_u64 m.tensor_id
  put_u64 m.version
  put_u64 m.nbytes
  put_u32 m.gpu_id
  put_u32 m.numa_node
  put_u32 m.alignment
  put_u32 m.priority
  put_u64 m.flags
  put_str m.debug_name

unfoldable pub decode_request_offload_request : Reader RequestOffloadRequest
decode_request_offload_request = do
  rank_id ← get_u32
  rank_epoch ← get_u64
  tensor_id ← get_u64
  version ← get_u64
  nbytes ← get_u64
  gpu_id ← get_u32
  numa_node ← get_u32
  alignment ← get_u32
  priority ← get_u32
  flags ← get_u64
  debug_name ← get_str
  pure (record {
    rank_id = rank_id;
    rank_epoch = rank_epoch;
    tensor_id = tensor_id;
    version = version;
    nbytes = nbytes;
    gpu_id = gpu_id;
    numa_node = numa_node;
    alignment = alignment;
    priority = priority;
    flags = flags;
    debug_name = debug_name;
  })

pub record RequestOffloadResponse : Type 0 where
  pub ok : Bool
  pub message : Bytes
  pub lease_id : U64
  pub slot_id : U32
  pub arena_id : U64
  pub arena_offset : U64
  pub capacity : U64
  pub state : U32
  pub blocked : Bool

unfoldable pub encode_request_offload_response : RequestOffloadResponse → Writer
encode_request_offload_response m = do
  put_bool m.ok
  put_str m.message
  put_u64 m.lease_id
  put_u32 m.slot_id
  put_u64 m.arena_id
  put_u64 m.arena_offset
  put_u64 m.capacity
  put_u32 m.state
  put_bool m.blocked

unfoldable pub decode_request_offload_response : Reader RequestOffloadResponse
decode_request_offload_response = do
  ok ← get_bool
  message ← get_str
  lease_id ← get_u64
  slot_id ← get_u32
  arena_id ← get_u64
  arena_offset ← get_u64
  capacity ← get_u64
  state ← get_u32
  blocked ← get_bool
  pure (record {
    ok = ok;
    message = message;
    lease_id = lease_id;
    slot_id = slot_id;
    arena_id = arena_id;
    arena_offset = arena_offset;
    capacity = capacity;
    state = state;
    blocked = blocked;
  })

pub record MarkD2hSubmittedRequest : Type 0 where
  pub rank_id : U32
  pub rank_epoch : U64
  pub lease_id : U64
  pub tensor_id : U64
  pub version : U64
  pub slot_id : U32
  pub submit_seq : U64
  pub timestamp_ns : U64

unfoldable pub encode_mark_d2h_submitted_request : MarkD2hSubmittedRequest → Writer
encode_mark_d2h_submitted_request m = do
  put_u32 m.rank_id
  put_u64 m.rank_epoch
  put_u64 m.lease_id
  put_u64 m.tensor_id
  put_u64 m.version
  put_u32 m.slot_id
  put_u64 m.submit_seq
  put_u64 m.timestamp_ns

unfoldable pub decode_mark_d2h_submitted_request : Reader MarkD2hSubmittedRequest
decode_mark_d2h_submitted_request = do
  rank_id ← get_u32
  rank_epoch ← get_u64
  lease_id ← get_u64
  tensor_id ← get_u64
  version ← get_u64
  slot_id ← get_u32
  submit_seq ← get_u64
  timestamp_ns ← get_u64
  pure (record {
    rank_id = rank_id;
    rank_epoch = rank_epoch;
    lease_id = lease_id;
    tensor_id = tensor_id;
    version = version;
    slot_id = slot_id;
    submit_seq = submit_seq;
    timestamp_ns = timestamp_ns;
  })

pub record MarkD2hSubmittedResponse : Type 0 where
  pub ok : Bool
  pub message : Bytes

unfoldable pub encode_mark_d2h_submitted_response : MarkD2hSubmittedResponse → Writer
encode_mark_d2h_submitted_response m = do put_bool m.ok; put_str m.message

unfoldable pub decode_mark_d2h_submitted_response : Reader MarkD2hSubmittedResponse
decode_mark_d2h_submitted_response = do
  ok ← get_bool
  message ← get_str
  pure (record { ok = ok; message = message })

pub record MarkD2hCompleteRequest : Type 0 where
  pub rank_id : U32
  pub rank_epoch : U64
  pub lease_id : U64
  pub tensor_id : U64
  pub version : U64
  pub slot_id : U32
  pub complete_seq : U64
  pub timestamp_ns : U64

unfoldable pub encode_mark_d2h_complete_request : MarkD2hCompleteRequest → Writer
encode_mark_d2h_complete_request m = do
  put_u32 m.rank_id
  put_u64 m.rank_epoch
  put_u64 m.lease_id
  put_u64 m.tensor_id
  put_u64 m.version
  put_u32 m.slot_id
  put_u64 m.complete_seq
  put_u64 m.timestamp_ns

unfoldable pub decode_mark_d2h_complete_request : Reader MarkD2hCompleteRequest
decode_mark_d2h_complete_request = do
  rank_id ← get_u32
  rank_epoch ← get_u64
  lease_id ← get_u64
  tensor_id ← get_u64
  version ← get_u64
  slot_id ← get_u32
  complete_seq ← get_u64
  timestamp_ns ← get_u64
  pure (record {
    rank_id = rank_id;
    rank_epoch = rank_epoch;
    lease_id = lease_id;
    tensor_id = tensor_id;
    version = version;
    slot_id = slot_id;
    complete_seq = complete_seq;
    timestamp_ns = timestamp_ns;
  })

pub record MarkD2hCompleteResponse : Type 0 where
  pub ok : Bool
  pub message : Bytes
  pub latest_version : Bool
  pub drain_enqueued : Bool

unfoldable pub encode_mark_d2h_complete_response : MarkD2hCompleteResponse → Writer
encode_mark_d2h_complete_response m = do
  put_bool m.ok
  put_str m.message
  put_bool m.latest_version
  put_bool m.drain_enqueued

unfoldable pub decode_mark_d2h_complete_response : Reader MarkD2hCompleteResponse
decode_mark_d2h_complete_response = do
  ok ← get_bool
  message ← get_str
  latest_version ← get_bool
  drain_enqueued ← get_bool
  pure (record {
    ok = ok;
    message = message;
    latest_version = latest_version;
    drain_enqueued = drain_enqueued;
  })
